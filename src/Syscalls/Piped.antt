-- ===== src/Syscalls/Piped.antt =====
-- `sys_write` and `sys_read` of Kernel/syscalls.c between two processes on a pipe.
use boke_os.Base.{
  ℕ, ◌+◌, ◌≤◌, ◌<◌, ◌≡◌, ◌≢◌, refl, sym, ◌∙◌, ap, true, false, some, List, [], ◌++◌, length, ◌==◌,
  arith,
}
use mathlib.Core.List.{append-nil}
use boke_os.Kernel.{Allocator, process_at}
use boke_os.Scheduler.Search.{current_process_id}
use boke_os.Pipe.Entry.{buffer_size}
use boke_os.Pipe.Table.{Pipes}
use boke_os.Pipe.Transfer.{Transfer, finished, pipe_write, pipe_read}
use boke_os.Pipe.Fifo.{IsValid, held}
use boke_os.Pipe.Messages.{Received, pipe_write-Sent, pipe_read-Received}
use boke_os.Syscalls.{Machine, Write, drawn, piped, Read, from_pipe, shell, sys_write, sys_read}

abbrev rest_of : Write → List ℕ
rest_of drawn = []
rest_of (piped w rest) = rest

module _ (A : Allocator) (text_at : ℕ → List ℕ) (font : ℕ → ℕ) where
  -- A process whose output is a pipe writes to it.
  sys_write-pipe :
      (buf : List ℕ) (fd id : ℕ) (m : Machine A.Mem)
      → id ≢ shell
      → (process_at m.kernel m.kernel.current_pcb).fw ≡ id
      → let (w, rest, t, k) = pipe_write A text_at id buf m.pipes m.kernel in
        sys_write A text_at font buf fd m ≡ (piped w rest, record m { pipes = t; kernel = k })
  unfolding sys_write
  sys_write-pipe buf fd id m n out =
      let other : (id == shell) ≡ false = ground arith in rw out (rw other refl)

  -- A process of the foreground whose input is a pipe reads from it.
  sys_read-pipe :
      (len fd id pid : ℕ) (m : Machine A.Mem)
      → id ≢ shell
      → current_process_id m.kernel ≡ some pid
      → m.kernel.foreground_pid ≡ pid
      → (process_at m.kernel m.kernel.current_pcb).fr ≡ id
      → let (w, got, left, t, k) = pipe_read A text_at id len m.pipes m.kernel in
        sys_read A text_at font len fd m
        ≡ (from_pipe w got left, record m { pipes = t; kernel = k })
  unfolding sys_read pipe_read
  sys_read-pipe len fd id pid m n e f inp =
      let other : (id == shell) ≡ false = ground arith in
      let same : (m.kernel.foreground_pid == pid) ≡ true = ground (arith, f) in
      rw (sys_read, e) (rw (same, inp) (rw other refl))

  -- What a process has written to a pipe by `sys_write`, a process of the foreground gets by `sys_read`
  -- behind what the pipe held before, in order, and the rest stays in the pipe: if the write was done, the
  -- pipe has no EOF and has room for the message, and the read asks for no more than the pipe then holds.
  pub sys_read-sys_write :
      (buf : List ℕ) (fd fd' len id pid : ℕ) (m m' : Machine A.Mem)
      → id ≢ shell
      → (process_at m.kernel m.kernel.current_pcb).fw ≡ id
      → IsValid (m.pipes.pipe_array id)
      → (m.pipes.pipe_array id).left_to_read + length buf ≤ buffer_size
      → (m.pipes.pipe_array id).eof ≡ false
      → (sys_write A text_at font buf fd m).0 ≡ piped (finished true) []
      → m'.pipes ≡ (sys_write A text_at font buf fd m).1.pipes
      → current_process_id m'.kernel ≡ some pid
      → m'.kernel.foreground_pid ≡ pid
      → (process_at m'.kernel m'.kernel.current_pcb).fr ≡ id
      → 0 < len
      → len ≤ (m'.pipes.pipe_array id).left_to_read
      → (w : Transfer) × (got : List ℕ) × (left : ℕ) × ((sys_read A text_at font len fd' m').0
          ≡ from_pipe w got left)
        × (held (m.pipes.pipe_array id) ++ buf
            ≡ got ++ held ((sys_read A text_at font len fd' m').1.pipes.pipe_array id))
        × Received id len [] m'.pipes w got left (sys_read A text_at font len fd' m').1.pipes
  sys_read-sys_write buf fd fd' len id pid m m' n out v room open_ done same_pipes cur fg inp pos_
        most =
      let wrote = sys_write-pipe buf fd id m n out in
      let read = sys_read-pipe len fd' id pid m' n cur fg inp in
      let sent = pipe_write-Sent A text_at id buf m.pipes m.kernel v room open_ in
      let after : m'.pipes ≡ (pipe_write A text_at id buf m.pipes m.kernel).2 =
        same_pipes ∙ ap (λ (r : Write × Machine A.Mem). r.1.pipes) wrote in
      let nothing_left : (pipe_write A text_at id buf m.pipes m.kernel).1 ≡ [] =
        ap rest_of (sym (ap (λ (r : Write × Machine A.Mem). r.0) wrote) ∙ done) in
      let valid : IsValid (m'.pipes.pipe_array id) = rw after sent.valid in
      let got = pipe_read-Received A text_at id len m'.pipes m'.kernel valid pos_ most in
      let all_sent : buf ≡ sent.sent =
        sent.whole ∙ ap (λ r. sent.sent ++ r) nothing_left ∙ append-nil sent.sent in
      let gone_in : held (m.pipes.pipe_array id) ++ buf ≡ held (m'.pipes.pipe_array id) =
        ap (λ c. held (m.pipes.pipe_array id) ++ c) all_sent
        ∙ sym sent.queued
        ∙ ap (λ (t : Pipes). held (t.pipe_array id)) (sym after) in
      let left_in = (pipe_read A text_at id len m'.pipes m'.kernel).3 in
      let come_out =
        gone_in ∙ got.taken ∙ ap (λ c. c ++ held (left_in.pipe_array id)) (sym got.into) in
      (_, _, _, ap (λ (r : Read × Machine A.Mem). r.0) read, rw read come_out, rw read got)
