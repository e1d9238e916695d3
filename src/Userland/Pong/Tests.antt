-- ===== src/Userland/Pong/Tests.antt =====
-- The game of Userland/SampleCodeModule/pong.c as `pong` sets it up, with a key of the first player.
use boke_os.Base.{true, arith}
use boke_os.Userland.Pong.{Game, play_round}
use boke_os.Userland.Pong.Field.{IsPlayable, pressed, play_round-Playable}

abbrev opening : Game
opening = record {
  paddle1 = record { x = 50; y = 334; width = 10; height = 100; speed = 4; direction = 2 };
  paddle2 = record { x = 964; y = 334; width = 10; height = 100; speed = 4; direction = 2 };
  ball = record { x = 507; y = 379; size = 10; speed_x = 3; speed_y = 3 };
  ball_speed = 3;
  ball_speed_horizontal = 6;
  player_1_score = 0;
  player_2_score = 0;
}

opening-Playable : IsPlayable opening
opening-Playable = omega arith

play_round-Playable_example : IsPlayable (play_round true (pressed 17 31 72 80 17 opening))
play_round-Playable_example = play_round-Playable true 17 31 72 80 17 opening opening-Playable
