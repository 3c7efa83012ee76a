-- ===== src/Kernel/Requests/Interleaved.antt =====
-- The timer and the keyboard do not disturb each other, in whatever order their requests come
-- (lumos/arch/i386/isr.c, timer.c and keyboard.c).
use osd.Base.{ℕ, suc, ◌+◌, ◌%◌, ◌^◌, ◌<◌, u8, List, [], ◌∷◌, ◌++◌, codes, Memory, refl, arith}
use osd.Base.{
  Option, none, some, ◌≡◌, ◌≢◌, ◌⊎◌, inl, inr, ◌==◌, false, true, if◌then◌else◌, ap, sym,
}
use osd.Tty.{Terminal, terminal_write}
use osd.Tty.Screen.{terminal_write-empty, terminal_write-append}
use osd.Libc.Format.{number}
use osd.Libc.Format.Render.{character, finished}
use osd.Libc.Format.Sinks.{printf-Renders}
use osd.Idt.{pic_master_command_port}
use osd.Isr.{Handlers, irq_handler, pic_eoi}
use osd.Timer.{timer_tick}
use osd.Keyboard.{Keyboard, keyboard_handler}
use osd.Kernel.{Image}
use osd.Kernel.Requests.{Running, print_key, press, call_handler, serve, serve_all}

-- Requests of the timer and of the keyboard only.
abbrev pub AllLines : List (ℕ × ℕ) → Type 0
AllLines [] = Unit {0}
AllLines ((irq, byte) ∷ later) = ((irq ≡ 0) ⊎ (irq ≡ 1)) × AllLines later

abbrev pub count_ticks : List (ℕ × ℕ) → ℕ
count_ticks [] = 0
count_ticks ((irq, byte) ∷ later) = if irq == 0 then suc (count_ticks later) else count_ticks later

-- The bytes of the keyboard's requests.
abbrev pub keys_of : List (ℕ × ℕ) → List ℕ
keys_of [] = []
keys_of ((irq, byte) ∷ later) = if irq == 1 then byte ∷ keys_of later else keys_of later

abbrev pub typed : Option ℕ → List ℕ
typed none = []
typed (some c) = u8 c ∷ []

-- What the bytes do to the keyboard alone, and the text that they type.
abbrev pub type_keys : Memory → Keyboard → List ℕ → Keyboard × List ℕ
type_keys past k [] = (k, [])
type_keys past k (b ∷ bs) =
    let one = keyboard_handler past k b in
    let rest = type_keys past one.0 bs in (rest.0, typed one.1 ++ rest.1)

-- One acknowledgement for each request.
abbrev pub acknowledged : List (ℕ × ℕ) → List (ℕ × ℕ)
acknowledged [] = []
acknowledged (r ∷ later) = (pic_master_command_port, pic_eoi) ∷ acknowledged later

-- The handlers are those of the timer and of the keyboard, at addresses that differ.
pub record IsServed (image : Image) (h : Handlers) : Type 0 where
  pub tick_handler : h 32 ≡ image.timer_tick
  pub key_handler : h 33 ≡ image.keyboard_handler
  pub tick_real : image.timer_tick ≢ 0
  pub key_real : image.keyboard_handler ≢ 0
  pub differ : image.keyboard_handler ≢ image.timer_tick

module _ (fuel : ℕ) (unknown past : Memory) where
  print_key-typed :
      (t : Terminal) (c : Option ℕ)
      → print_key fuel unknown past t c ≡ some (terminal_write t (typed c))
  unfolding print_key
  print_key-typed t none = ap (λ (x : Terminal). some x) (sym (terminal_write-empty t))
  print_key-typed t (some c) =
      let line =
        printf-Renders fuel unknown t (codes "%c") (u8 c ∷ []) (number c ∷ [])
          (character refl refl finished) (omega arith) in
      rw line refl

  press-typed :
      (byte : ℕ) (s : Running)
      → press fuel unknown past byte s
        ≡ some (record s {
          terminal = terminal_write s.terminal (typed (keyboard_handler past s.keyboard byte).1);
          keyboard = (keyboard_handler past s.keyboard byte).0;
        })
  unfolding press
  press-typed byte s =
      rw (print_key-typed s.terminal (keyboard_handler past s.keyboard byte).1) refl

  module _ (image : Image) (h : Handlers) (w : IsServed image h) where
    pub serve-tick :
        (byte : ℕ) (s : Running)
        → serve fuel unknown past image h (0, byte) s ≡ (
          some (record s { ticks = timer_tick s.ticks }),
          (pic_master_command_port, pic_eoi) ∷ [],
        )
    unfolding serve call_handler irq_handler
    serve-tick byte s =
        let real : image.timer_tick == 0 ≡ false = ground (arith, w.tick_real) in
        let same : image.timer_tick == image.timer_tick ≡ true = ground arith in
        rw (w.tick_handler, real, same) refl

    pub serve-key :
        (byte : ℕ) (s : Running)
        → serve fuel unknown past image h (1, byte) s ≡ (
          some (record s {
            terminal = terminal_write s.terminal (typed (keyboard_handler past s.keyboard byte).1);
            keyboard = (keyboard_handler past s.keyboard byte).0;
          }),
          (pic_master_command_port, pic_eoi) ∷ [],
        )
    unfolding serve call_handler irq_handler
    serve-key byte s =
        let real : image.keyboard_handler == 0 ≡ false = ground (arith, w.key_real) in
        let off : image.keyboard_handler == image.timer_tick ≡ false = ground (arith, w.differ) in
        let same : image.keyboard_handler == image.keyboard_handler ≡ true = ground arith in
        rw (w.key_handler, real, off, same, press-typed byte s) refl

    -- Where the handlers of the timer and the keyboard are registered, at addresses that differ and
    -- are not null, any requests of the two, in any order, are all served: the 32-bit ticks are
    -- counted modulo 2 ^ 32, the keyboard and the screen are as after the keyboard's requests alone,
    -- and each request is acknowledged once.
    pub serve_all-Interleaved :
        (rs : List (ℕ × ℕ)) (s : Running)
        → AllLines rs
        → s.ticks < 2 ^ 32
        → serve_all fuel unknown past image h rs s
          ≡ some (
            record {
              terminal = terminal_write s.terminal (type_keys past s.keyboard (keys_of rs)).1;
              keyboard = (type_keys past s.keyboard (keys_of rs)).0;
              ticks = (s.ticks + count_ticks rs) % 2 ^ 32;
            },
            acknowledged rs,
          )
    unfolding serve_all timer_tick
    serve_all-Interleaved [] s lines below =
        let same : (s.ticks + 0) % 2 ^ 32 ≡ s.ticks = omega arith in
        rw (same, terminal_write-empty s.terminal) refl
    serve_all-Interleaved ((irq, byte) ∷ rs) s (inl e, lines) below =
        let s' = record s { ticks = timer_tick s.ticks } in
        let rest = serve_all-Interleaved rs s' lines (omega arith) in
        let count : (timer_tick s.ticks + count_ticks rs) % 2 ^ 32
            ≡ (s.ticks + suc (count_ticks rs)) % 2 ^ 32 =
          omega arith in
        rw (e, serve-tick byte s, rest, count) refl
    serve_all-Interleaved ((irq, byte) ∷ rs) s (inr e, lines) below =
        let one = keyboard_handler past s.keyboard byte in
        let s' = record s {
          terminal = terminal_write s.terminal (typed one.1);
          keyboard = one.0;
        } in
        let rest = serve_all-Interleaved rs s' lines below in
        let text =
          terminal_write-append s.terminal (typed one.1) (type_keys past one.0 (keys_of rs)).1 in
        rw (e, serve-key byte s, rest, text) refl
