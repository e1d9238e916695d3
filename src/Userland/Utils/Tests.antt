-- ===== src/Userland/Utils/Tests.antt =====
-- Userland/SampleCodeModule/utils.c at the numbers 7 and -42.
use boke_os.Base.{ℕ, ◌≡◌, some, List, [], ◌∷◌, ◌++◌, arith, map}
use boke_os.Base.Int.{ℤ, pos, negsuc}
use boke_os.Userland.Utils.{vprint, int_arg}
use boke_os.Userland.Utils.Scan.{format_of, own_scanf, own_scanf-vprint, int_value}

abbrev two : List ℤ
two = pos 7 ∷ negsuc 41 ∷ []

own_scanf-vprint_example :
    (out : List ℕ) × (vprint (format_of two) (map int_arg two) ≡ some out)
    × (own_scanf (format_of two) (out ++ b'q' ∷ []) ≡ some (map int_value two, 2, b'q' ∷ []))
own_scanf-vprint_example = own_scanf-vprint two (b'q' ∷ []) (omega arith, (omega arith, tt))
