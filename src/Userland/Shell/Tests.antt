-- ===== src/Userland/Shell/Tests.antt =====
-- The line editor on concrete keys.
use boke_os.Base.{[], ◌∷◌}
use boke_os.Userland.Shell.{bufferize}
use boke_os.Userland.Shell.Editor.{Agrees, entered, edit_all, edit, drop_last, bufferize-edit_all}

-- `PX`, a backspace, `S` and the end of the line.
bufferize-edit_all_example :
    Agrees (bufferize (80 ∷ 88 ∷ 8 ∷ 83 ∷ 10 ∷ []) 0 (λ _. 0) []) (entered (80 ∷ 83 ∷ []))
unfolding edit_all edit drop_last
bufferize-edit_all_example = bufferize-edit_all (80 ∷ 88 ∷ 8 ∷ 83 ∷ 10 ∷ []) (λ _. 0)
