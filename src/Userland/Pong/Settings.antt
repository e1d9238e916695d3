-- ===== src/Userland/Pong/Settings.antt =====
-- The menu of Userland/SampleCodeModule/pong.c: `get_number` and `configuration`. What `get_c` gives
-- is a list of characters; where it is at its end the game waits, `none`. What is printed is left out.
use mathlib.Core.Option
use boke_os.Base.{
  ℕ, zero, suc, ◌-◌, ◌*◌, ◌/◌, ◌%◌, not, ◌&&◌, ◌||◌, Option, none, some, List, [], ◌∷◌, get_or, ltb,
  leb, ◌==◌, if◌then◌else◌,
}
use boke_os.Userland.Pong.{Paddle, Ball, Game, int_mod, add_int, sub_int, neg_int, lt_int}
use boke_os.Userland.Pong.Keys.{Keys, ascii_to_key_code, set_up, set_down}

-- The globals that the menu sets, besides those of the game.
pub record Settings : Type 0 where
  pub game : Game
  pub score : ℕ
  pub experimental : ℕ
  pub border_color : ℕ
  pub background_color : ℕ
  pub ball_color : ℕ
  pub paddle1_color : ℕ
  pub paddle2_color : ℕ
  pub player1 : Keys
  pub player2 : Keys

-- `number / 10` of an `int`.
abbrev pub tenth_int : ℕ → ℕ
tenth_int a = if ltb a 2147483648 then a / 10 else neg_int (neg_int a / 10)

-- The loop of `get_number` with the number so far.
unfoldable pub get_number_from : ℕ → List ℕ → Option (ℕ × List ℕ)
get_number_from number [] = none
get_number_from number (c ∷ cs) =
    let shorter = get_number_from (tenth_int number) cs in
    let longer = get_number_from (add_int (number * 10 % int_mod) (sub_int c 48)) cs in
    let same = get_number_from number cs in
    if c == 10
    then some (number, cs)
    else if (leb 48 c && leb c 57) || c == 8
    then (if c == 8 && not (number == 0) then shorter else longer)
    else same

-- `get_number`
unfoldable pub get_number : List ℕ → Option (ℕ × List ℕ)
get_number cs = get_number_from 0 cs

-- `COMMON_COLORS`
abbrev pub common_colors : List ℕ
common_colors =
    16777215 ∷ 0 ∷ 16711680 ∷ 65280 ∷ 255 ∷ 16776960 ∷ 16711935 ∷ 65535 ∷ 8421504 ∷ 16753920 ∷ []

-- A number is read and goes to `store` if it is above 0.
abbrev pub ask_number : (ℕ → Settings → Settings) → Settings → List ℕ → Option (Settings × List ℕ)
ask_number store s cs =
    Option.map
      (λ (answer : ℕ × List ℕ). (if lt_int 0 answer.0 then store answer.0 s else s, answer.1))
      (get_number cs)

-- A number from 1 to 10 is read and its colour goes to `store`.
abbrev pub ask_color : (ℕ → Settings → Settings) → Settings → List ℕ → Option (Settings × List ℕ)
ask_color store =
    ask_number (λ n s. if leb n 10 then store (get_or common_colors (n - 1) 0) s else s)

-- A character is read and its key goes to `store` if it is not 0.
abbrev pub ask_key : (ℕ → Settings → Settings) → Settings → List ℕ → Option (Settings × List ℕ)
ask_key store s [] = none
ask_key store s (c ∷ cs) = some (if c == 0 then s else store (ascii_to_key_code c) s, cs)

infixl 5 ◌then_ask◌
abbrev pub ◌then_ask◌ :
    Option (Settings × List ℕ)
    → (Settings → List ℕ → Option (Settings × List ℕ))
    → Option (Settings × List ℕ)
first then_ask next = elim first [ some r ↦ next r.0 r.1 | none ↦ none ]

-- `set_paddle` and `set_ball`, with what they set of the game.
abbrev pub set_paddle : (x y width height speed direction : ℕ) → Paddle
set_paddle x y width height speed direction = record {
  x = x;
  y = y;
  width = width;
  height = height;
  speed = speed;
  direction = direction;
}

abbrev pub set_ball : (x y size speed_x speed_y : ℕ) → Ball
set_ball x y size speed_x speed_y = record {
  x = x;
  y = y;
  size = size;
  speed_x = speed_x;
  speed_y = speed_y;
}

-- The option `D`. The first two paddles stand at 50 and at 1024 - 50 - 10, in the middle.
unfoldable pub restore_defaults : Settings → Settings
restore_defaults s = record s {
  background_color = 0;
  game = record (s.game) {
    paddle1 = set_paddle 50 334 10 100 4 2;
    paddle2 = set_paddle 964 334 10 100 4 2;
    ball = set_ball 507 379 10 s.game.ball_speed s.game.ball_speed;
  };
  paddle1_color = 16777215;
  paddle2_color = 16777215;
  ball_color = 16777215;
  player1 = set_down 31 (set_up 17 s.player1);
  player2 = set_down 80 (set_up 72 s.player2);
}

-- The stores of the options.
abbrev pub store_ball_speed : ℕ → Settings → Settings
store_ball_speed n s = record s {
  game = record (s.game) {
    ball_speed = n;
    ball_speed_horizontal = n * 2 % int_mod;
    ball = record (s.game.ball) { speed_x = n };
  };
}

abbrev pub store_paddle_speed : ℕ → Settings → Settings
store_paddle_speed n s = record s {
  game = record (s.game) {
    paddle1 = record (s.game.paddle1) { speed = n };
    paddle2 = record (s.game.paddle2) { speed = n };
  };
}

abbrev pub store_ball_size : ℕ → Settings → Settings
store_ball_size n s = record s {
  game = record (s.game) { ball = record (s.game.ball) { size = n } };
}

abbrev pub store_height1 : ℕ → Settings → Settings
store_height1 n s = record s {
  game = record (s.game) { paddle1 = record (s.game.paddle1) { height = n } };
}

abbrev pub store_height2 : ℕ → Settings → Settings
store_height2 n s = record s {
  game = record (s.game) { paddle2 = record (s.game.paddle2) { height = n } };
}

abbrev pub store_width1 : ℕ → Settings → Settings
store_width1 n s = record s {
  game = record (s.game) { paddle1 = record (s.game.paddle1) { width = n } };
}

-- One choice of `configuration` other than `X`: the case of `S` has no `break` and runs into `D`.
unfoldable pub choose : ℕ → Settings → List ℕ → Option (Settings × List ℕ)
choose c s cs =
    if c == b'1'
    then ask_number store_ball_speed s cs
    else if c == b'2'
    then ask_number store_paddle_speed s cs
    else if c == b'3'
    then some (record s { experimental = 0 }, cs)
    else if c == b'4'
    then ask_number store_ball_size s cs
    else if c == b'5'
    then ask_color (λ n s. record s { border_color = n }) s cs
    else if c == b'6'
    then (ask_number store_height1 s cs then_ask ask_number store_height2)
    else if c == b'7'
    then (ask_number store_width1 s cs then_ask ask_number store_width1)
    else if c == b'8'
    then ask_color (λ n s. record s { ball_color = n }) s cs
    else if c == b'9'
    then ask_color (λ n s. record s { paddle1_color = n; paddle2_color = n }) s cs
    else if c == b'0'
    then ask_color (λ n s. record s { background_color = n }) s cs
    else if c == b'C'
    then (ask_key (λ key s. record s { player1 = set_up key s.player1 }) s cs
        then_ask ask_key (λ key s. record s { player1 = set_down key s.player1 }))
    else if c == b'K'
    then (ask_key (λ key s. record s { player2 = set_up key s.player2 }) s cs
        then_ask ask_key (λ key s. record s { player2 = set_down key s.player2 }))
    else if c == b'S'
    then (ask_number (λ n s. record s { score = n }) s cs
        then_ask (λ s' cs'. some (restore_defaults s', cs')))
    else if c == b'D'
    then some (restore_defaults s, cs)
    else some (s, cs)

-- `configuration`, with the rounds that are left.
unfoldable pub configuration : ℕ → Settings → List ℕ → Option (Settings × List ℕ)
configuration zero s cs = none
configuration (suc rounds) s [] = none
configuration (suc rounds) s (c ∷ cs) =
    if c == b'X' then some (s, cs) else (choose c s cs then_ask configuration rounds)
