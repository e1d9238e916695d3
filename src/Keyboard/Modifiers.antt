-- ===== src/Keyboard/Modifiers.antt =====
-- Control and the keys that the handler has seen.
use boke_os.Base.{
  ℕ, Bool, if◌then◌else◌, true, false, ◌<◌, ◌≡◌, ◌≢◌, Option, none, refl, sym, ◌==◌, List, [], ◌∷◌,
}
use boke_os.Base.Run.{Run, ok, ◌>>=◌, Returns, returns, Returns-bind}
use boke_os.Keyboard.Handler.{Keyboard, keyboard_handler}
use boke_os.Keyboard.Bounds.{keyboard_handler-Leaves}

-- A key as it comes in, with whether the process in the foreground then reads from the shell, `none`
-- when it has no entry.
pub record Press : Type 0 where
  pub shell : Option Bool
  pub key : ℕ

-- The keys one after another.
unfoldable pub handle_all : List Press → Keyboard → Run Keyboard
handle_all [] k = ok k
handle_all (p ∷ ps) k = keyboard_handler p.shell p.key k >>= λ after. handle_all ps after.0

-- Whether control is held after the keys: the last 0x1D or 0x9D among them decides, and without one
-- it is held if it was before.
unfoldable pub ctrl_held : List Press → Bool → Bool
ctrl_held [] before = before
ctrl_held (p ∷ ps) before =
    ctrl_held ps (if p.key == 29 then true else if p.key == 157 then false else before)

-- Keys below 256, each while the process in the foreground has an entry.
abbrev pub AllSafe : List Press → Type 0
AllSafe [] = Unit
AllSafe (p ∷ ps) = (p.key < 256) × (p.shell ≢ none) × AllSafe ps

-- From a position inside the buffer, any keys below 256 that come in while the process in the foreground
-- has an entry are handled without following NULL and without a read or write outside the buffer or the
-- table of scan codes; the position ends inside the buffer, and control is held
-- exactly if the last key 0x1D or 0x9D says so, or, when there was none, if it was held before.
pub handle_all-InBounds :
    (ps : List Press) (k : Keyboard)
    → AllSafe ps
    → k.buffer_pos < 4096
    → Returns
        (λ k'. (k'.buffer_pos < 4096) × (k'.ctrl_pressed ≡ ctrl_held ps k.ctrl_pressed))
        (handle_all ps k)
unfolding handle_all ctrl_held
handle_all-InBounds [] k b l = returns (l, refl)
handle_all-InBounds (p ∷ ps) k b l =
    Returns-bind (keyboard_handler-Leaves p.shell p.key k b.1 b.0 l)
      (λ r q. let rest = handle_all-InBounds ps r.0 b.2 q.0 in rw (sym q.1) rest)
