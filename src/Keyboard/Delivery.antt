-- ===== src/Keyboard/Delivery.antt =====
-- What is typed is what the reader gets, up to the end of the buffer, and what follows there.
use boke_os.Base.{
  ℕ, Bool, not, if◌then◌else◌, ◌||◌, ◌&&◌, ◌+◌, ◌%◌, true, false, some, ◌≤◌, ◌<◌, ◌≡◌, refl, ◌∙◌,
  sym, arith, ltb, ◌==◌, List, [], ◌∷◌, ◌++◌, map, length, update,
}
use mathlib.Core.List.{append_assoc, append-nil}
use boke_os.Base.Run.{ok, fault, Returns, returns, Returns-weaken}
use boke_os.Keyboard.Handler.{
  Keyboard, Call, keyboard_handler, put_key, write_at, code_of, shifted, next_pos, get_char_at,
  save_state, post_if_started,
}
use boke_os.Keyboard.ScanCodes.{scan_code}
use boke_os.Keyboard.Bounds.{shifted-Bound, next_pos-Bound}
use boke_os.Keyboard.Reading.{Reader, char_of, read_round, type_and_read}

-- The scan codes of keys that go down and are no modifiers.
abbrev pub plain : ℕ → Bool
plain key = ltb 0 key && ltb key 128 && not (key == 42 || key == 54 || key == 29)

abbrev pub AllPlain : List ℕ → Type 0
AllPlain [] = Unit
AllPlain (key ∷ keys) = (plain key ≡ true) × AllPlain keys

shifted-Low : (s : Bool) (key : ℕ) → plain key ≡ true → (0 < shifted s key) × (shifted s key < 128)
unfolding shifted
shifted-Low s key h = ground arith

handled :
    (shell : Bool) (key : ℕ) (k : Keyboard)
    → plain key ≡ true
    → k.ctrl_pressed ≡ false
    → keyboard_handler (some shell) key k ≡ put_key key k
unfolding keyboard_handler
handled shell key k h c = ground arith

-- The keyboard after a key that went into the buffer.
abbrev with_key : ℕ → Keyboard → Keyboard
with_key key k = record k {
  buffer_pos = next_pos k.buffer_pos;
  buff =
      update (update k.buff (next_pos k.buffer_pos) 0) k.buffer_pos (shifted k.shift_pressed key);
}

put_key-with_key :
    (key : ℕ) (k : Keyboard)
    → key < 256
    → k.buffer_pos < 4096
    → (calls : List Call) × (put_key key k ≡ ok (with_key key k, calls))
unfolding put_key write_at code_of
put_key-with_key key k h l =
    let a : ltb (next_pos k.buffer_pos) 4096 ≡ true = ground (arith, next_pos-Bound k.buffer_pos) in
    let b : ltb k.buffer_pos 4096 ≡ true = ground arith in
    let c : ltb (shifted k.shift_pressed key) 256 ≡ true =
      ground (arith, shifted-Bound k.shift_pressed key h) in
    (
      (if scan_code (shifted k.shift_pressed key) == 59 then save_state ∷ [] else [])
          ++ post_if_started (with_key key k),
      rw (a, b, c) refl,
    )

-- The round behind a plain key takes it and moves the position past it.
read_round-with_key :
    (key : ℕ) (r : Reader) (k : Keyboard)
    → plain key ≡ true
    → k.buffer_pos ≡ r.pos
    → r.pos < 4096
    → read_round r (with_key key k)
      ≡ ok (
        record { pos = r.pos + 1; got = r.got ++ char_of (shifted k.shift_pressed key) ∷ [] },
        record (with_key key k) { buffer_pos = r.pos + 1 },
      )
unfolding read_round get_char_at
read_round-with_key key r k h e l =
    let low = shifted-Low k.shift_pressed key h in
    let a : ltb r.pos 4096 ≡ true = ground arith in
    let b : (r.pos == r.pos) ≡ true = ground arith in
    let c : shifted k.shift_pressed key % 256 ≡ shifted k.shift_pressed key =
      omega (arith, low.0, low.1) in
    let d : (ltb 0 (shifted k.shift_pressed key) && ltb (shifted k.shift_pressed key) 128) ≡ true =
      ground (arith, low.0, low.1) in
    rw (e, a, b, c, d) refl

one :
    (shell : Bool) (key : ℕ) (keys : List ℕ) (r : Reader) (k : Keyboard)
    → plain key ≡ true
    → k.ctrl_pressed ≡ false
    → k.buffer_pos ≡ r.pos
    → r.pos < 4096
    → type_and_read shell (key ∷ keys) r k
      ≡ type_and_read shell keys
          (record { pos = r.pos + 1; got = r.got ++ char_of (shifted k.shift_pressed key) ∷ [] })
          (record (with_key key k) { buffer_pos = r.pos + 1 })
unfolding type_and_read
one shell key keys r k h c e l =
    let put = put_key-with_key key k (ground arith) (omega arith) in
    rw (handled shell key k h c, put.1, read_round-with_key key r k h e l) refl

-- Keys that are typed one by one while a process reads come out as their characters, in their
-- order: with control up, the reader at the buffer's position, and room for the keys before the
-- end of the buffer, the reader gets for every plain key the character of its scan code (of the
-- shifted one while shift is held), and is at the buffer's position again.
pub type_and_read-Delivered :
    (shell : Bool) (keys : List ℕ) (r : Reader) (k : Keyboard)
    → AllPlain keys
    → k.ctrl_pressed ≡ false
    → k.buffer_pos ≡ r.pos
    → r.pos + length keys ≤ 4096
    → Returns
        (λ end.
          (end.0.got ≡ r.got ++ map (λ key. char_of (shifted k.shift_pressed key)) keys)
          × (end.0.pos ≡ r.pos + length keys)
          × (end.1.buffer_pos ≡ r.pos + length keys))
        (type_and_read shell keys r k)
type_and_read-Delivered shell [] r k h c e l =
    unfold type_and_read in returns {r = (r, k)} (sym (append-nil r.got), omega arith, omega arith)
type_and_read-Delivered shell (key ∷ keys) r k h c e l =
    let rest =
      type_and_read-Delivered shell keys
        (record { pos = r.pos + 1; got = r.got ++ char_of (shifted k.shift_pressed key) ∷ [] })
        (record (with_key key k) { buffer_pos = r.pos + 1 }) h.1 c refl (omega arith) in
    rw (one shell key keys r k h.0 c e (omega arith)) (
      Returns-weaken
        (λ end q. (q.0 ∙ append_assoc r.got _ _, omega (arith, q.1), omega (arith, q.2))) rest)

put_key-outside : (key : ℕ) (k : Keyboard) → k.buffer_pos ≡ 4096 → put_key key k ≡ fault
unfolding put_key write_at next_pos
put_key-outside key k e = rw e refl

outside :
    (shell : Bool) (key : ℕ) (keys : List ℕ) (r : Reader) (k : Keyboard)
    → plain key ≡ true
    → k.ctrl_pressed ≡ false
    → k.buffer_pos ≡ 4096
    → type_and_read shell (key ∷ keys) r k ≡ fault
unfolding type_and_read
outside shell key keys r k h c e = rw (handled shell key k h c, put_key-outside key k e) refl

-- A reader that takes the key in the last cell of the buffer moves the position behind the buffer,
-- and the next key is written outside it.
pub type_and_read-overrun :
    (shell : Bool) (key next_key : ℕ) (keys : List ℕ) (r : Reader) (k : Keyboard)
    → plain key ≡ true
    → plain next_key ≡ true
    → k.ctrl_pressed ≡ false
    → k.buffer_pos ≡ 4095
    → r.pos ≡ 4095
    → type_and_read shell (key ∷ next_key ∷ keys) r k ≡ fault
type_and_read-overrun shell key next_key keys r k h h' c e e' =
    rw (one shell key (next_key ∷ keys) r k h c (omega arith) (omega arith))
      (outside shell next_key keys _ _ h' c (omega arith))
