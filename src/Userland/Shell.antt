-- ===== src/Userland/Shell.antt =====
-- The line editor of the shell: `bufferize` of Userland/SampleCodeModule/shell.c, with buffer.c. The
-- characters that `get_c` gives are a list, and so are those that go to `put_c`.
pub mod Editor
mod Tests
use boke_os.Base.{
  ℕ, ◌+◌, ◌-◌, Bool, true, false, List, [], ◌∷◌, ◌++◌, ltb, ◌==◌, if◌then◌else◌, update,
}

-- `BUFFER_SIZE`
abbrev pub buffer_size : ℕ
buffer_size = 128

-- `clear_buffer` of buffer.c
unfoldable pub clear_buffer : (ℕ → ℕ) → ℕ → ℕ
clear_buffer buff i = if ltb i buffer_size then 0 else buff i

-- How `bufferize` ends: it waits for a character, the buffer is full, the line was empty, or the buffer went to `line_read`. Each comes with what was echoed.
pub data Typed : Type 0 where
  waiting full : List ℕ → Typed
  blank : List ℕ → (buffer : ℕ → ℕ) → Typed
  submitted : List ℕ → (line : ℕ → ℕ) → Typed

-- `bufferize` from the character `i` on.
unfoldable pub bufferize : List ℕ → ℕ → (ℕ → ℕ) → List ℕ → Typed
bufferize [] i buffer echo = if ltb i buffer_size then waiting echo else full echo
bufferize (c ∷ cs) i buffer echo =
    let end_of_buffer = i == buffer_size - 1 in
    let erased = bufferize cs (i - 1) buffer (echo ++ c ∷ []) in
    let ignored = bufferize cs i buffer echo in
    let stored = bufferize cs (i + 1) (update buffer i c) (echo ++ c ∷ []) in
    if ltb i buffer_size
    then (if c == 8
        then (if ltb 0 i then erased else ignored)
        else if c == 10
        then (if i == 0
            then blank (echo ++ c ∷ []) (clear_buffer buffer)
            else submitted (echo ++ c ∷ []) (update buffer i 0))
        else if end_of_buffer
        then ignored
        else stored)
    else full echo
