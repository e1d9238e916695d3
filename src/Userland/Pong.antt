-- ===== src/Userland/Pong.antt =====
-- Userland/SampleCodeModule/pong.c. An `int` is a word of 32 bits, in two's complement; a comparison with
-- the `unsigned` BORDER_SIZE is one of words, the others compare integers. Drawing and sounds are left
-- out, as are the colours of the paddles and the ball.
pub mod Field
pub mod Keys
pub mod Settings
pub mod Menu
mod Tests
use boke_os.Base.{
  ℕ, zero, suc, ◌+◌, ◌-◌, ◌*◌, ◌/◌, ◌%◌, Bool, true, false, ◌&&◌, ◌==◌, ltb, leb, if◌then◌else◌,
}

-- `Paddle`, where `direction` is 1 for UP, 0 for DOWN and 2 for STOP.
pub record Paddle : Type 0 where
  pub x : ℕ
  pub y : ℕ
  pub width : ℕ
  pub height : ℕ
  pub speed : ℕ
  pub direction : ℕ

pub record Ball : Type 0 where
  pub x : ℕ
  pub y : ℕ
  pub size : ℕ
  pub speed_x : ℕ
  pub speed_y : ℕ

-- The globals of the game.
pub record Game : Type 0 where
  pub paddle1 : Paddle
  pub paddle2 : Paddle
  pub ball : Ball
  pub ball_speed : ℕ
  pub ball_speed_horizontal : ℕ
  pub player_1_score : ℕ
  pub player_2_score : ℕ

abbrev pub int_mod : ℕ
int_mod = 4294967296

abbrev pub screen_width : ℕ
screen_width = 1024

abbrev pub screen_height : ℕ
screen_height = 768

abbrev pub border_size : ℕ
border_size = 20

abbrev pub add_int : ℕ → ℕ → ℕ
add_int a b = (a + b) % int_mod

abbrev pub sub_int : ℕ → ℕ → ℕ
sub_int a b = (a + (int_mod - b)) % int_mod

-- `-1 * a`
abbrev pub neg_int : ℕ → ℕ
neg_int a = (int_mod - a) % int_mod

-- `a / 2`, which rounds towards 0.
abbrev pub half_int : ℕ → ℕ
half_int a = if ltb a 2147483648 then a / 2 else neg_int (neg_int a / 2)

-- `a < b` and `a <= b` of two integers.
abbrev pub lt_int : ℕ → ℕ → Bool
lt_int a b = ltb ((a + 2147483648) % int_mod) ((b + 2147483648) % int_mod)

abbrev pub le_int : ℕ → ℕ → Bool
le_int a b = leb ((a + 2147483648) % int_mod) ((b + 2147483648) % int_mod)

-- `movePaddle`; UP moves by `movement_vector[1] * speed`, where `movement_vector[1]` is 1.
unfoldable pub move_paddle : Paddle → Paddle
move_paddle p =
    let up = sub_int p.y p.speed in
    let down = add_int p.y p.speed in
    if p.direction == 1
    then if leb border_size up
      then record p { y = up }
      else record p { y = border_size; direction = 2 }
    else if p.direction == 0
    then if leb (add_int down p.height) (screen_height - border_size)
      then record p { y = down }
      else record p { y = sub_int (screen_height - border_size) p.height; direction = 2 }
    else p

-- `update_score`, behind the drawing.
abbrev pub update_score : (player : ℕ) → Game → Game
update_score player g =
    if player == 1
    then record g { player_1_score = add_int g.player_1_score 1 }
    else record g { player_2_score = add_int g.player_2_score 1 }

-- `check_scored`
unfoldable pub check_scored : Game → Bool × Game
check_scored g =
    let center = add_int g.ball.x (half_int g.ball.size) in
    if lt_int center (add_int g.paddle1.x g.paddle1.width)
    then (true, update_score 2 g)
    else if lt_int g.paddle2.x center
    then (true, update_score 1 g)
    else (false, g)

-- `reset_game`
unfoldable pub reset_game : Game → Game
reset_game g =
    let b = g.ball in
    record g {
      ball = record b {
        x = sub_int (screen_width / 2) (half_int b.size);
        y = sub_int (screen_height / 2) (half_int b.size);
        speed_x = neg_int b.speed_x;
        speed_y = 0;
      };
      paddle1 = record (g.paddle1) { y = sub_int (screen_height / 2) (half_int g.paddle1.height) };
      paddle2 = record (g.paddle2) { y = sub_int (screen_height / 2) (half_int g.paddle2.height) };
    }

-- The parts of `move_ball`: the step, the walls at the sides and those above and below.
abbrev pub step_ball : Ball → Ball
step_ball b = record b { x = add_int b.x b.speed_x; y = add_int b.y b.speed_y }

unfoldable pub bounce_x : Ball → Ball
bounce_x b =
    if leb b.x border_size
    then record b { x = border_size; speed_x = neg_int b.speed_x }
    else if leb (screen_width - border_size) (add_int b.x b.size)
    then record b { x = sub_int (screen_width - border_size) b.size; speed_x = neg_int b.speed_x }
    else b

unfoldable pub bounce_y : Ball → Ball
bounce_y b =
    if leb b.y border_size
    then record b { y = border_size; speed_y = neg_int b.speed_y }
    else if leb (screen_height - border_size * 2) (add_int b.y b.size)
    then record b {
      y = sub_int (screen_height - border_size * 2) b.size;
      speed_y = neg_int b.speed_y;
    }
    else b

abbrev pub touches : Ball → Paddle → Bool
touches b p =
    le_int b.x (add_int p.x p.width)
    && le_int p.x (add_int b.x b.size)
    && le_int p.y (add_int b.y b.size)
    && le_int b.y (add_int p.y p.height)

-- The speed that the ball takes from the direction of a paddle.
abbrev pub speed_from : (direction ball_speed old : ℕ) → ℕ
speed_from direction ball_speed old =
    if direction == 2
    then 0
    else if direction == 1
    then neg_int ball_speed
    else if direction == 0
    then ball_speed
    else old

unfoldable pub hit_paddle1 : Game → Game
hit_paddle1 g =
    let b = g.ball in
    let p = g.paddle1 in
    if touches b p
    then record g {
      ball = record b {
        speed_x = if p.direction == 2 then g.ball_speed_horizontal else g.ball_speed;
        speed_y = speed_from p.direction g.ball_speed b.speed_y;
      };
    }
    else g

unfoldable pub hit_paddle2 : Game → Game
hit_paddle2 g =
    let b = g.ball in
    let p = g.paddle2 in
    if touches b p
    then record g {
      ball = record b {
        speed_x =
            if p.direction == 2 then neg_int g.ball_speed_horizontal else neg_int g.ball_speed;
        speed_y = speed_from p.direction g.ball_speed b.speed_y;
      };
    }
    else g

-- `move_ball`
unfoldable pub move_ball : Game → Game
move_ball g =
    let (scored, g1) = check_scored g in
    let moved = record g1 { ball = bounce_y (bounce_x (step_ball g1.ball)) } in
    if scored then reset_game g1 else hit_paddle2 (hit_paddle1 moved)

-- The direction in which `training` sends the second paddle.
unfoldable pub training_direction : Ball → Paddle → ℕ
training_direction b p =
    let middle = add_int p.y (half_int p.height) in
    if lt_int (add_int b.y b.size) middle then 1 else if lt_int middle b.y then 0 else 2

-- `training`, which plays the second paddle.
unfoldable pub training : Game → Game
training g =
    let turned = record g.paddle2 { direction = training_direction g.ball g.paddle2 } in
    record g { paddle2 = move_paddle turned }

-- One key of the loop of `pong`, for the paddle that it moves: `up` and `down` are the keys that were set,
-- a key that is released is 0x80 above.
unfoldable pub press : (up down : ℕ) → (c : ℕ) → Paddle → Paddle
press up down c p =
    if c == up
    then record p { direction = 1 }
    else if c == (up + 128) % 18446744073709551616
    then (if p.direction == 1 then record p { direction = 2 } else p)
    else if c == down
    then record p { direction = 0 }
    else if c == (down + 128) % 18446744073709551616
    then (if p.direction == 0 then record p { direction = 2 } else p)
    else p

-- The rest of one round, behind the keys, up to the test for a winner.
unfoldable pub play_round : (is_training : Bool) → Game → Game
play_round is_training g =
    let g1 = if is_training then training g else g in
    move_ball (record g1 { paddle1 = move_paddle g1.paddle1; paddle2 = move_paddle g1.paddle2 })
