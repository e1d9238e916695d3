-- ===== src/Pipe/Transfer.antt =====
-- Kernel/pipe.c: reading and writing. A call that `my_sem_wait` suspends stops in the middle of its
-- loop, and goes on there when the process is revived.
use boke_os.Base.{
  ℕ, zero, suc, Bool, true, false, not, ◌&&◌, List, [], ◌∷◌, ◌++◌, ◌==◌, if◌then◌else◌,
}
use boke_os.Kernel.{Kernel, Allocator}
use boke_os.Semaphore.Locks.{my_sem_wait, my_sem_post, Wait}
use boke_os.Pipe.Entry.{eof_char, put, get}
use boke_os.Pipe.Table.{Pipes, set_pipe}

-- What a call comes to: 1 or 0 is `finished true`, -1 is `finished false`.
pub data Transfer : Type 0 where
  finished : Bool → Transfer
  suspended : Transfer

abbrev pub is_suspended : Wait → Bool
is_suspended Wait.suspended = true
is_suspended _ = false

-- `text_at` reads the string at an address.
module _ (A : Allocator) (text_at : ℕ → List ℕ) where
  -- The loop of `pipe_write`, over what is left of the message: what is left when it ends.
  unfoldable pub write_from :
      ℕ → List ℕ → Pipes → Kernel A.Mem → Transfer × List ℕ × Pipes × Kernel A.Mem
  unfolding put my_sem_wait my_sem_post
  write_from id [] t k = (finished true, [], t, k)
  write_from id (c ∷ cs) t k =
      let p = t.pipe_array id in
      let (w, k₁) = my_sem_wait A (text_at p.write_sem_id) k in
      let k₂ = (my_sem_post A (text_at p.read_sem_id) k₁).1 in
      let ended = t.first_eof && p.eof in
      let rest = write_from id cs (set_pipe id (put c p) t) k₂ in
      if is_suspended w
      then (suspended, c ∷ cs, t, k₁)
      else if ended
      then (
        finished false,
        c ∷ cs,
        set_pipe id (put eof_char p) (record t { first_eof = false }),
        k₂,
      )
      else rest

  unfoldable pub pipe_write :
      ℕ → List ℕ → Pipes → Kernel A.Mem → Transfer × List ℕ × Pipes × Kernel A.Mem
  unfolding write_from
  pipe_write id message t k =
      if (t.pipe_array id).eof && not t.first_eof
      then (finished false, message, t, k)
      else write_from id message t k

  -- The loop of `pipe_read`, with the rounds that are left: the bytes of `dest`, and the rounds that
  -- are left when it ends.
  unfoldable pub read_from :
      ℕ
      → (rounds : ℕ) → (dest : List ℕ) → Pipes
      → Kernel A.Mem
      → Transfer × List ℕ × ℕ × Pipes × Kernel A.Mem
  unfolding get my_sem_wait my_sem_post
  read_from id zero dest t k = (finished true, dest, 0, t, k)
  read_from id (suc r) dest t k =
      let p = t.pipe_array id in
      let (w, k₁) = my_sem_wait A (text_at p.read_sem_id) k in
      let (c, p') = get p in
      let k₂ = (my_sem_post A (text_at p.write_sem_id) k₁).1 in
      let dest' = dest ++ c ∷ [] in
      let t' = set_pipe id p' t in
      let rest = read_from id r dest' t' k₂ in
      if is_suspended w
      then (suspended, dest, suc r, t, k₁)
      else if c == eof_char
      then (finished false, dest', r, t', k₂)
      else rest

  unfoldable pub pipe_read :
      ℕ → (size : ℕ) → Pipes → Kernel A.Mem → Transfer × List ℕ × ℕ × Pipes × Kernel A.Mem
  unfolding read_from
  pipe_read id size t k =
      let p = t.pipe_array id in
      if p.eof && (p.left_to_read == 0)
      then (finished false, eof_char ∷ [], size, t, k)
      else read_from id size [] t k
