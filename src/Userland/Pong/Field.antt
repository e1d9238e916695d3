-- ===== src/Userland/Pong/Field.antt =====
-- The ball and the paddles of Userland/SampleCodeModule/pong.c between the borders.
use boke_os.Base.{ℕ, ◌+◌, ◌%◌, ◌≤◌, ◌<◌, ◌≡◌, inl, inr, Bool, true, false, Bool-cases, arith}
use boke_os.Userland.Pong.{
  Paddle, Ball, Game, add_int, neg_int, move_paddle, check_scored, reset_game, step_ball, bounce_x,
  bounce_y, touches, speed_from, hit_paddle1, hit_paddle2, move_ball, training, training_direction,
  press, play_round,
}

-- A speed from -20 to 20.
abbrev pub IsSlow : ℕ → Type 0
IsSlow v = (v < 4294967296) × ((v + 20) % 4294967296 ≤ 40)

-- A ball between the borders, and one that is slow.
abbrev pub InField : (x y size : ℕ) → Type 0
InField x y size = (20 ≤ x) × (x + size ≤ 1004) × (20 ≤ y) × (y + size ≤ 728)

abbrev pub BallIsFine : Ball → Type 0
BallIsFine b = InField b.x b.y b.size × (b.size ≤ 688) × IsSlow b.speed_x × IsSlow b.speed_y

abbrev pub PaddleIsFine : Paddle → Type 0
PaddleIsFine p = (20 ≤ p.y) × (p.y + p.height ≤ 748) × (p.speed ≤ 20)

-- What the keys and the settings leave as they are between two rounds.
abbrev pub IsPlayable : Game → Type 0
IsPlayable g =
    BallIsFine g.ball
    × PaddleIsFine g.paddle1
    × PaddleIsFine g.paddle2
    × (g.ball_speed ≤ 20)
    × (g.ball_speed_horizontal ≤ 20)

move_paddle-Fine : (p : Paddle) → PaddleIsFine p → PaddleIsFine (move_paddle p)
unfolding move_paddle
move_paddle-Fine p h = ground arith

press-Fine : (up down c : ℕ) (p : Paddle) → PaddleIsFine p → PaddleIsFine (press up down c p)
unfolding press
press-Fine up down c p h = ground arith

IsSlow-neg : (v : ℕ) → IsSlow v → IsSlow (neg_int v)
IsSlow-neg v h = ground arith

bounce_x-In :
    (b : Ball)
    → 20 ≤ b.x
    → b.x + b.size ≤ 1004
    → b.size ≤ 688
    → IsSlow b.speed_x
    → (let b' = bounce_x (step_ball b) in
        (20 ≤ b'.x)
        × (b'.x + b'.size ≤ 1004)
        × (b'.size ≡ b.size)
        × IsSlow b'.speed_x
        × (b'.y ≡ add_int b.y b.speed_y)
        × (b'.speed_y ≡ b.speed_y))
unfolding bounce_x
bounce_x-In b h k l s = ground (arith, IsSlow-neg b.speed_x s)

bounce_y-In :
    (b : Ball) (y : ℕ)
    → 20 ≤ y
    → y + b.size ≤ 728
    → b.size ≤ 688
    → IsSlow b.speed_y
    → b.y ≡ add_int y b.speed_y
    → (let b' = bounce_y b in
        (20 ≤ b'.y)
        × (b'.y + b'.size ≤ 728)
        × (b'.size ≡ b.size)
        × IsSlow b'.speed_y
        × (b'.x ≡ b.x)
        × (b'.speed_x ≡ b.speed_x))
unfolding bounce_y
bounce_y-In b y h k l s e = ground (arith, IsSlow-neg b.speed_y s)

walls-Fine : (b : Ball) → BallIsFine b → BallIsFine (bounce_y (bounce_x (step_ball b)))
walls-Fine b h =
    let ((x, xs, y, ys), size, sx, sy) = h in
    let (x', xs', size', sx', y_step, same_y) = bounce_x-In b x xs size sx in
    let b1 : Ball = bounce_x (step_ball b) in
    let sy1 : IsSlow b1.speed_y = ground (arith, sy, same_y) in
    let step1 : b1.y ≡ add_int b.y b1.speed_y = ground (arith, y_step, same_y) in
    let (y'', ys'', size'', sy'', same_x, same_sx) =
      bounce_y-In b1 b.y y (omega (arith, ys, size')) (omega (arith, size, size')) sy1 step1 in
    ground (arith, x', xs', size', size'', sx', y'', ys'', sy'', same_x, same_sx)

speed_from-Slow :
    (direction speed old : ℕ) → speed ≤ 20 → IsSlow old → IsSlow (speed_from direction speed old)
speed_from-Slow direction speed old h k = ground arith

hit_paddle1-Playable : (g : Game) → IsPlayable g → IsPlayable (hit_paddle1 g)
unfolding hit_paddle1
hit_paddle1-Playable g h = elim (Bool-cases (touches g.ball g.paddle1)) [
  | inr miss ↦ rw (miss, hit_paddle1) h
  | inl hit ↦
      let slow = speed_from-Slow g.paddle1.direction g.ball_speed g.ball.speed_y h.3 h.0.3 in
      rw (hit, hit_paddle1) ((h.0.0, h.0.1, ground arith, slow), h.1, h.2, h.3, h.4)
]

hit_paddle2-Playable : (g : Game) → IsPlayable g → IsPlayable (hit_paddle2 g)
unfolding hit_paddle2
hit_paddle2-Playable g h = elim (Bool-cases (touches g.ball g.paddle2)) [
  | inr miss ↦ rw (miss, hit_paddle2) h
  | inl hit ↦
      let slow = speed_from-Slow g.paddle2.direction g.ball_speed g.ball.speed_y h.3 h.0.3 in
      rw (hit, hit_paddle2) ((h.0.0, h.0.1, ground arith, slow), h.1, h.2, h.3, h.4)
]

-- What scoring leaves as it is.
check_scored-same :
    (g : Game)
    → (let r = (check_scored g).1 in
        (r.ball ≡ g.ball)
        × (r.paddle1 ≡ g.paddle1)
        × (r.paddle2 ≡ g.paddle2)
        × (r.ball_speed ≡ g.ball_speed)
        × (r.ball_speed_horizontal ≡ g.ball_speed_horizontal))
unfolding check_scored
check_scored-same g = ground arith

check_scored-Playable : (g : Game) → IsPlayable g → IsPlayable (check_scored g).1
unfolding check_scored
check_scored-Playable g h = ground arith

reset_game-Playable : (g : Game) → IsPlayable g → IsPlayable (reset_game g)
unfolding reset_game
reset_game-Playable g h = ground (arith, IsSlow-neg g.ball.speed_x h.0.2)

move_ball-Playable : (g : Game) → IsPlayable g → IsPlayable (move_ball g)
unfolding move_ball
move_ball-Playable g h =
    let fine = check_scored-Playable g h in
    let g1 : Game = (check_scored g).1 in
    elim (Bool-cases (check_scored g).0) [
      | inl scored ↦ rw (scored, move_ball) (reset_game-Playable g1 fine)
      | inr missed ↦
          let walls = walls-Fine g1.ball fine.0 in
          let moved : Game = record g1 { ball = bounce_y (bounce_x (step_ball g1.ball)) } in
          rw (missed, move_ball)
            (hit_paddle2-Playable (hit_paddle1 moved)
              (hit_paddle1-Playable moved (walls, fine.1, fine.2, fine.3, fine.4)))
    ]

training-Playable : (g : Game) → IsPlayable g → IsPlayable (training g)
unfolding training
training-Playable g h = (
  h.0,
  h.1,
  move_paddle-Fine (record g.paddle2 { direction = training_direction g.ball g.paddle2 }) h.2,
  h.3,
  h.4,
)

moves-Playable :
    (g : Game)
    → IsPlayable g
    → IsPlayable
        (move_ball (record g { paddle1 = move_paddle g.paddle1; paddle2 = move_paddle g.paddle2 }))
moves-Playable g h =
    move_ball-Playable
      (record g { paddle1 = move_paddle g.paddle1; paddle2 = move_paddle g.paddle2 })
      (h.0, move_paddle-Fine g.paddle1 h.1, move_paddle-Fine g.paddle2 h.2, h.3, h.4)

-- The game behind the keys of a round, one for each player.
abbrev pub pressed : (up1 down1 up2 down2 c : ℕ) → Game → Game
pressed up1 down1 up2 down2 c g = record g {
  paddle1 = press up1 down1 c g.paddle1;
  paddle2 = press up2 down2 c g.paddle2;
}

-- A game in which the ball and the paddles lie between the borders, the ball is at most 688 pixels wide and
-- every speed is at most 20 is such a game behind a key of each player and the rest of the round.
pub play_round-Playable :
    (is_training : Bool) (up1 down1 up2 down2 c : ℕ) (g : Game)
    → IsPlayable g
    → IsPlayable (play_round is_training (pressed up1 down1 up2 down2 c g))
unfolding play_round
play_round-Playable true up1 down1 up2 down2 c g h =
    let g1 : Game = pressed up1 down1 up2 down2 c g in
    let fine : IsPlayable g1 =
      (h.0, press-Fine up1 down1 c g.paddle1 h.1, press-Fine up2 down2 c g.paddle2 h.2, h.3, h.4) in
    moves-Playable (training g1) (training-Playable g1 fine)
play_round-Playable false up1 down1 up2 down2 c g h =
    let fine : IsPlayable (pressed up1 down1 up2 down2 c g) =
      (h.0, press-Fine up1 down1 c g.paddle1 h.1, press-Fine up2 down2 c g.paddle2 h.2, h.3, h.4) in
    moves-Playable (pressed up1 down1 up2 down2 c g) fine
