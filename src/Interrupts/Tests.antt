-- ===== src/Interrupts/Tests.antt =====
-- Interrupts at concrete numbers.
use boke_os.Base.{ℕ, refl, arith, true, false, some}
use boke_os.Interrupts.Calls.{Registers}
use boke_os.Interrupts.Vectors.{Descriptor, Handlers, Gate, load_idt, handler_of, load_idt-Gate}
use boke_os.Interrupts.Dispatch.{Devices, Interrupt}

abbrev handlers : Handlers
handlers = record {
  irq00 = 1052672;
  exception0 = 1;
  exception6 = 2;
  exception13 = 3;
  irq01 = 4;
  irq60 = 5;
}

abbrev no_gate : Descriptor
no_gate = record {
  offset_l = 0;
  selector = 0;
  cero = 0;
  access = 0;
  offset_m = 0;
  offset_h = 0;
  other_cero = 0;
}

load_idt-Gate_example : Gate ((load_idt handlers (λ _. no_gate)).0 32) 1052672
unfolding handler_of
load_idt-Gate_example = load_idt-Gate handlers (λ _. no_gate) 32 1052672 refl (omega arith)

abbrev registers : Registers
registers = record { rdi = 14; rsi = 0; rdx = 0; rcx = 0; r8 = 0; r9 = 0; r10 = 0 }

abbrev devices : Devices
devices = record {
  ticks = 18446744073709551615;
  keyboard = record {
    buffer_pos = 4095;
    buff = λ _. 0;
    shift_pressed = false;
    ctrl_pressed = false;
    process_started = true;
  };
}

abbrev interrupt : ℕ → ℕ → Interrupt
interrupt irq key = record {
  irq = irq;
  registers = registers;
  key = key;
  shell = some true;
  served = λ k. k;
}
