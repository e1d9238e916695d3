-- ===== src/Userland/Pong/Keys.antt =====
-- The keys of the players in Userland/SampleCodeModule/pong.c.
use boke_os.Base.{ℕ, ◌+◌, ◌%◌, List, [], ◌∷◌, ◌++◌, ◌==◌, if◌then◌else◌, replicate}

-- `ascii_to_key_code`; -1 is the largest word of 64 bits, which it becomes as a key.
unfoldable pub ascii_to_key_code : ℕ → ℕ
ascii_to_key_code c =
    if c == 27
    then 1
    else if c == 8
    then 14
    else if c == 9
    then 15
    else if c == 13
    then 28
    else if c == 0
    then 29
    else if c == 32
    then 57
    else if c == 49
    then 2
    else if c == 50
    then 3
    else if c == 51
    then 4
    else if c == 52
    then 5
    else if c == 53
    then 6
    else if c == 54
    then 7
    else if c == 55
    then 8
    else if c == 56
    then 9
    else if c == 57
    then 10
    else if c == 48
    then 11
    else if c == 45
    then 12
    else if c == 61
    then 13
    else if c == 91
    then 26
    else if c == 93
    then 27
    else if c == 59
    then 39
    else if c == 39
    then 40
    else if c == 96
    then 41
    else if c == 92
    then 43
    else if c == 44
    then 51
    else if c == 46
    then 52
    else if c == 47
    then 53
    else if c == 94
    then 72
    else if c == 118
    then 80
    else if c == 60
    then 75
    else if c == 62
    then 77
    else if c == 65
    then 30
    else if c == 66
    then 48
    else if c == 67
    then 46
    else if c == 68
    then 32
    else if c == 69
    then 18
    else if c == 70
    then 33
    else if c == 71
    then 34
    else if c == 72
    then 35
    else if c == 73
    then 23
    else if c == 74
    then 36
    else if c == 75
    then 37
    else if c == 76
    then 38
    else if c == 77
    then 50
    else if c == 78
    then 49
    else if c == 79
    then 24
    else if c == 80
    then 25
    else if c == 81
    then 16
    else if c == 82
    then 19
    else if c == 83
    then 31
    else if c == 84
    then 20
    else if c == 85
    then 22
    else if c == 86
    then 47
    else if c == 87
    then 17
    else if c == 88
    then 45
    else if c == 89
    then 44
    else if c == 90
    then 21
    else 18446744073709551615

-- `scan_codes`: the entries that the initializer names, the others are 0.
abbrev pub scan_codes : List ℕ
scan_codes =
    (0 ∷ 0 ∷ 49 ∷ 50 ∷ 51 ∷ 52 ∷ 53 ∷ 54 ∷ 55 ∷ 56 ∷ 57 ∷ 48 ∷ 45 ∷ 61 ∷ 8 ∷ 9 ∷ 81 ∷ 87 ∷ 69 ∷ 82
      ∷ 84 ∷ 89 ∷ 85 ∷ 73 ∷ 79 ∷ 80 ∷ 91 ∷ 93 ∷ 10 ∷ 0 ∷ 65 ∷ 83 ∷ 68 ∷ 70 ∷ 71 ∷ 72 ∷ 74 ∷ 75 ∷ 76
      ∷ 59 ∷ 39 ∷ 96 ∷ 0 ∷ 92 ∷ 90 ∷ 88 ∷ 67 ∷ 86 ∷ 66 ∷ 78 ∷ 77 ∷ 0 ∷ 0 ∷ 0 ∷ 0 ∷ 0 ∷ 0 ∷ 32 ∷ 0
      ∷ 0 ∷ 0 ∷ 0 ∷ 0 ∷ 0 ∷ 0 ∷ 0 ∷ 0 ∷ 0 ∷ 0 ∷ 0 ∷ 0 ∷ 55 ∷ 94 ∷ 57 ∷ 45 ∷ 52 ∷ 53 ∷ 54 ∷ 43 ∷ 49
      ∷ 118 ∷ 51 ∷ 48 ∷ 46 ∷ 0 ∷ 0 ∷ 0 ∷ 0 ∷ 0 ∷ 0 ∷ 0 ∷ 0 ∷ 0 ∷ 0 ∷ 0 ∷ 0 ∷ 0 ∷ 0 ∷ 0 ∷ 0 ∷ 0 ∷ 0
      ∷ 0 ∷ 0 ∷ 0 ∷ 0 ∷ 0 ∷ 0 ∷ 0 ∷ 0 ∷ 0 ∷ 0 ∷ 0 ∷ 0 ∷ 0 ∷ 0 ∷ 0 ∷ 0 ∷ 0 ∷ 0 ∷ 0 ∷ 0 ∷ 0 ∷ 0 ∷ 0
      ∷ 0 ∷ 0 ∷ 0 ∷ [])
    ++ replicate 128 0

-- The keys of a player: going up and down, and the codes of their releases.
pub record Keys : Type 0 where
  pub up : ℕ
  pub upbeak : ℕ
  pub down : ℕ
  pub downbeak : ℕ

-- `set_player_1_up` and `set_player_2_up`
abbrev pub set_up : ℕ → Keys → Keys
set_up key k = record k { up = key; upbeak = (key + 128) % 18446744073709551616 }

-- `set_player_1_down` and `set_player_2_down`
abbrev pub set_down : ℕ → Keys → Keys
set_down key k = record k { down = key; downbeak = (key + 128) % 18446744073709551616 }
