-- ===== src/Mouse/Tests.antt =====
-- Tests of the mouse from its first state.
use snowkernel.Base.{[], ◌∷◌, refl, arith}
use snowkernel.Base.Int.{pos}
use snowkernel.Mouse.{Mouse}
use snowkernel.Mouse.Packets.{OnScreen, IsMouse, run, run-IsMouse}

abbrev start : Mouse
start = record {
  mx = pos 0;
  my = pos 0;
  mb = 0;
  packet = λ i. 0;
  packet_index = 0;
  dbg_counter = 0;
  ports = [];
  printed = [];
}

start-IsMouse : IsMouse start
unfolding OnScreen
start-IsMouse = record {
  x = (0, refl, omega arith);
  y = (0, refl, omega arith);
  room = omega arith;
}

run-IsMouse_example : IsMouse (run start ((32, 9) ∷ (1, 4) ∷ (32, 200) ∷ (32, 7) ∷ []))
run-IsMouse_example = run-IsMouse start ((32, 9) ∷ (1, 4) ∷ (32, 200) ∷ (32, 7) ∷ []) start-IsMouse
