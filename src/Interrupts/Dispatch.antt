-- ===== src/Interrupts/Dispatch.antt =====
-- `irq_dispatcher` of Kernel/irqDispatcher.c, and Kernel/time.c.
use boke_os.Base.{
  ℕ, suc, ◌+◌, ◌/◌, ◌%◌, ◌<◌, Bool, Option, none, ◌≢◌, List, [], ◌∷◌, ◌==◌, if◌then◌else◌,
}
use boke_os.Base.Run.{Run, ok, ◌>>=◌}
use boke_os.Interrupts.Calls.{Registers, Service, int_80}
use boke_os.Keyboard.Handler.{Keyboard, Call, keyboard_handler}

-- What the handlers of interrupts keep: `ticks` of time.c and the keyboard.
pub record Devices : Type 0 where
  pub ticks : ℕ
  pub keyboard : Keyboard

-- `timer_handler`: an `unsigned long`.
unfoldable pub timer_handler : ℕ → ℕ
timer_handler ticks = (ticks + 1) % 18446744073709551616

-- `seconds_elapsed`: the `int` of the quotient.
unfoldable pub seconds_elapsed : ℕ → ℕ
seconds_elapsed ticks = ticks / 18 % 4294967296

-- What an interrupt leads to besides the change of the devices.
pub data Effect : Type 0 where
  calls : List Call → Effect
  service : Service → Effect
  refused : Effect

-- `irq_dispatcher`, with the byte of the keyboard, whether the process in the foreground reads from the
-- shell (`none` when it has no entry), and what the system call leaves of the keyboard: `sys_read` moves
-- its position. The table `interruption` has entries 0, 1 and 96; `refused` is -1.
unfoldable pub irq_dispatcher :
    ℕ
    → Registers
    → (key : ℕ) (shell : Option Bool) (served : Keyboard → Keyboard) → Devices
    → Run (Devices × Effect)
irq_dispatcher irq r key shell served d =
    if irq == 0
    then ok (record d { ticks = timer_handler d.ticks }, calls [])
    else if irq == 1
    then (keyboard_handler shell key d.keyboard >>= λ after.
        ok (record d { keyboard = after.0 }, calls after.1))
    else if irq == 96
    then ok (record d { keyboard = served d.keyboard }, service (int_80 r))
    else ok (d, refused)

-- An interrupt as it comes, with the arguments of `irq_dispatcher`.
pub record Interrupt : Type 0 where
  pub irq : ℕ
  pub registers : Registers
  pub key : ℕ
  pub shell : Option Bool
  pub served : Keyboard → Keyboard

unfoldable pub dispatch_all : List Interrupt → Devices → Run Devices
dispatch_all [] d = ok d
dispatch_all (i ∷ is) d =
    irq_dispatcher i.irq i.registers i.key i.shell i.served d >>= λ after. dispatch_all is after.0

-- How many of the interrupts are the timer's.
unfoldable pub timer_count : List Interrupt → ℕ
timer_count [] = 0
timer_count (i ∷ is) = let n = timer_count is in if i.irq == 0 then suc n else n

-- The key is a byte, the process in the foreground has an entry, and the system call leaves the position
-- of the keyboard inside its buffer.
pub record IsSafe (i : Interrupt) : Type 0 where
  pub byte : i.key < 256
  pub found : i.shell ≢ none
  pub inside : (k : Keyboard) → k.buffer_pos < 4096 → (i.served k).buffer_pos < 4096

abbrev pub AllSafe : List Interrupt → Type 0
AllSafe [] = Unit
AllSafe (i ∷ is) = IsSafe i × AllSafe is
