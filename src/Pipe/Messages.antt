-- ===== src/Pipe/Messages.antt =====
-- `pipe_write` and `pipe_read` of Kernel/pipe.c on whole messages, also where a wait suspends them.
use boke_os.Base.{
  ℕ, zero, suc, ◌+◌, ◌-◌, ◌≤◌, ◌<◌, ◌≡◌, refl, ◌⊎◌, inl, inr, ◌∙◌, ap, sym, Bool, true, false,
  Bool-cases, ==_iff, ◌&&◌, List, [], ◌∷◌, ◌++◌, ◌==◌, length, arith,
}
use mathlib.Core.List.{append_assoc, append-nil}
use mathlib.Core.Path.{subst}
use boke_os.Kernel.{Kernel, Allocator}
use boke_os.Semaphore.Locks.{my_sem_wait}
use boke_os.Pipe.Entry.{Pipe, buffer_size, put, get, eof_char}
use boke_os.Pipe.Table.{Pipes, set_pipe}
use boke_os.Pipe.Transfer.{
  Transfer, finished, suspended, is_suspended, write_from, read_from, pipe_write, pipe_read,
}
use boke_os.Pipe.Fifo.{held, IsValid, put-held, get-held}

-- `sent` went into the pipe, and `rest` of the message is left: nothing, unless the call was suspended.
pub record Sent (id : ℕ) (message : List ℕ) (t : Pipes) (w : Transfer) (rest : List ℕ) (t' : Pipes)
    : Type 0 where
  pub sent : List ℕ
  pub whole : message ≡ sent ++ rest
  pub valid : IsValid (t'.pipe_array id)
  pub queued : held (t'.pipe_array id) ≡ held (t.pipe_array id) ++ sent
  pub ended : ((w ≡ finished true) × (rest ≡ [])) ⊎ (w ≡ suspended)

set_pipe_self : (id : ℕ) (p : Pipe) (t : Pipes) → (set_pipe id p t).pipe_array id ≡ p
set_pipe_self id p t = ground arith

left-put : (c : ℕ) (p : Pipe) → (put c p).left_to_read ≡ p.left_to_read + 1
unfolding put
left-put c p = refl

eof-put : (c : ℕ) (p : Pipe) → (put c p).eof ≡ p.eof
unfolding put
eof-put c p = refl

no_eof : (a b : Bool) → b ≡ false → (a && b) ≡ false
no_eof a b h = ground arith

Sent-cons :
    (id c : ℕ) (cs : List ℕ) (t t₁ : Pipes) (w : Transfer) (rest : List ℕ) (t' : Pipes)
    → held (t₁.pipe_array id) ≡ held (t.pipe_array id) ++ c ∷ []
    → Sent id cs t₁ w rest t'
    → Sent id (c ∷ cs) t w rest t'
Sent-cons id c cs t t₁ w rest t' first s = record {
  sent = c ∷ s.sent;
  whole = ap (λ x. c ∷ x) s.whole;
  valid = s.valid;
  queued =
      s.queued
      ∙ ap (λ x. x ++ s.sent) first
      ∙ append_assoc (held (t.pipe_array id)) (c ∷ []) s.sent;
  ended = s.ended;
}

module _ (A : Allocator) (text_at : ℕ → List ℕ) where
  write_from-Sent :
      (id : ℕ) (cs : List ℕ) (t : Pipes) (k : Kernel A.Mem)
      → IsValid (t.pipe_array id)
      → (t.pipe_array id).left_to_read + length cs ≤ buffer_size
      → (t.pipe_array id).eof ≡ false
      → let (w, rest, t', k') = write_from A text_at id cs t k in Sent id cs t w rest t'
  unfolding write_from
  write_from-Sent id [] t k v room open_ = record {
    sent = [];
    whole = refl;
    valid = v;
    queued = sym (append-nil _);
    ended = inl (refl, refl);
  }
  write_from-Sent id (c ∷ cs) t k v room open_ =
      elim (Bool-cases
        (is_suspended (my_sem_wait A (text_at (t.pipe_array id).write_sem_id) k).0)) [
          | inl stop ↦ rw stop (record {
            sent = [];
            whole = refl;
            valid = v;
            queued = sym (append-nil _);
            ended = inr refl;
          })
          | inr go ↦
              let p = t.pipe_array id in
              let q = put-held c p v (omega arith) in
              let t₁ = set_pipe id (put c p) t in
              let self : t₁.pipe_array id ≡ put c p = set_pipe_self id (put c p) t in
              rw (go, no_eof t.first_eof p.eof open_)
                (Sent-cons id c cs t t₁ _ _ _ (ap held self ∙ q.1) (
                  write_from-Sent id cs t₁ _ (subst IsValid (sym self) q.0)
                    (omega (arith, ap (λ (x : Pipe). x.left_to_read) self, left-put c p))
                    (ap (λ (x : Pipe). x.eof) self ∙ eof-put c p ∙ open_)))
        ]

  -- `pipe_write` to a pipe that has seen no EOF, with room for the message: the pipe's bytes grow by
  -- the part that was sent, in order, which is all of it unless a wait suspends the call.
  pub pipe_write-Sent :
      (id : ℕ) (message : List ℕ) (t : Pipes) (k : Kernel A.Mem)
      → IsValid (t.pipe_array id)
      → (t.pipe_array id).left_to_read + length message ≤ buffer_size
      → (t.pipe_array id).eof ≡ false
      → let (w, rest, t', k') = pipe_write A text_at id message t k in Sent id message t w rest t'
  unfolding pipe_write
  pipe_write-Sent id message t k v room open_ =
      rw (open_) (write_from-Sent id message t k v room open_)

-- `got` was read from the pipe, behind what `dest` held before. The call read all that was asked for,
-- or it was suspended, or the last byte that it read is the EOF character.
pub record Received (id rounds : ℕ) (dest : List ℕ) (t : Pipes) (w : Transfer) (dest' : List ℕ)
    (left : ℕ) (t' : Pipes) : Type 0 where
  pub got : List ℕ
  pub into : dest' ≡ dest ++ got
  pub count : length got + left ≡ rounds
  pub valid : IsValid (t'.pipe_array id)
  pub taken : held (t.pipe_array id) ≡ got ++ held (t'.pipe_array id)
  pub ended :
      ((w ≡ finished true) × (left ≡ 0))
      ⊎ (w ≡ suspended)
      ⊎ ((w ≡ finished false) × ((before : List ℕ) × (got ≡ before ++ eof_char ∷ [])))

Received-cons :
    (id r c : ℕ) (dest : List ℕ) (t t₁ : Pipes) (w : Transfer) (dest' : List ℕ) (left : ℕ)
    (t' : Pipes)
    → held (t.pipe_array id) ≡ c ∷ held (t₁.pipe_array id)
    → Received id r (dest ++ c ∷ []) t₁ w dest' left t'
    → Received id (suc r) dest t w dest' left t'
Received-cons id r c dest t t₁ w dest' left t' first s = record {
  got = c ∷ s.got;
  into = s.into ∙ append_assoc dest (c ∷ []) s.got;
  count = omega (arith, s.count);
  valid = s.valid;
  taken = first ∙ ap (λ x. c ∷ x) s.taken;
  ended = elim s.ended [
    | inl d ↦ inl d
    | inr (inl d) ↦ inr (inl d)
    | inr (inr (d, b)) ↦ inr (inr (d, (c ∷ b.0, ap (λ x. c ∷ x) b.1)))
  ];
}

some_left : (b : Bool) (n : ℕ) → 0 < n → (b && (n == 0)) ≡ false
some_left b n h = ground arith

left-get : (p : Pipe) → (get p).1.left_to_read ≡ p.left_to_read - 1
unfolding get
left-get p = refl

module _ (A : Allocator) (text_at : ℕ → List ℕ) where
  read_from-Received :
      (id r : ℕ) (dest : List ℕ) (t : Pipes) (k : Kernel A.Mem)
      → IsValid (t.pipe_array id)
      → r ≤ (t.pipe_array id).left_to_read
      → let (w, dest', left, t', k') = read_from A text_at id r dest t k in
        Received id r dest t w dest' left t'
  unfolding read_from
  read_from-Received id zero dest t k v room = record {
    got = [];
    into = sym (append-nil _);
    count = omega arith;
    valid = v;
    taken = refl;
    ended = inl (refl, refl);
  }
  read_from-Received id (suc r) dest t k v room =
      elim (Bool-cases (is_suspended (my_sem_wait A (text_at (t.pipe_array id).read_sem_id) k).0)) [
        | inl stop ↦ rw stop (record {
          got = [];
          into = sym (append-nil _);
          count = omega arith;
          valid = v;
          taken = refl;
          ended = inr (inl refl);
        })
        | inr go ↦
            let p = t.pipe_array id in
            let q = get-held p v (omega arith) in
            let t₁ = set_pipe id (get p).1 t in
            let self : t₁.pipe_array id ≡ (get p).1 = set_pipe_self id (get p).1 t in
            elim (Bool-cases ((get p).0 == eof_char)) [
              | inl last ↦
                  rw (go, last)
                    (record {
                      got = (get p).0 ∷ [];
                      into = refl;
                      count = omega arith;
                      valid = subst IsValid (sym self) q.0;
                      taken = q.1 ∙ ap (λ x. (get p).0 ∷ held x) (sym self);
                      ended =
                          inr (
                            inr
                              (refl, ([], ap (λ x. x ∷ []) ((==_iff (get p).0 eof_char).0 last))));
                    })
              | inr more ↦
                  rw (go, more)
                    (Received-cons id r (get p).0 dest t t₁ _ _ _ _
                      (q.1 ∙ ap (λ x. (get p).0 ∷ held x) (sym self))
                      (read_from-Received id r _ t₁ _ (subst IsValid (sym self) q.0)
                        (omega (arith, ap (λ (x : Pipe). x.left_to_read) self, left-get p))))
            ]
      ]

  -- `pipe_read` of at least one byte and no more than the pipe holds: the bytes come out in the order
  -- in which they went in, and what was not read stays. It stops behind an EOF character, or where a
  -- wait suspends it, and otherwise reads all.
  pub pipe_read-Received :
      (id size : ℕ) (t : Pipes) (k : Kernel A.Mem)
      → IsValid (t.pipe_array id)
      → 0 < size
      → size ≤ (t.pipe_array id).left_to_read
      → let (w, dest', left, t', k') = pipe_read A text_at id size t k in
        Received id size [] t w dest' left t'
  unfolding pipe_read
  pipe_read-Received id size t k v some_ room =
      rw (some_left (t.pipe_array id).eof (t.pipe_array id).left_to_read (omega arith))
        (read_from-Received id size [] t k v room)
