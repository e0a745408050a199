-- ===== src/Host/Tests.antt =====
-- A run of the host with two services and two realms.
use pic_x.Base.{codes, none, some, [], ◌∷◌, ◌++◌, ◌≡◌, true, false, text_eq, if◌then◌else◌}
use pic_x.Host.{Host, Answers, health, run}
use pic_x.Host.Visible.{visible}
use pic_x.Host.Released.{released, run-released}

-- The first service does not stop well, and the budget is gone when the sink is asked.
abbrev answers : Answers
answers = record {
  name = codes "default";
  services = codes "public" ∷ codes "admin" ∷ [];
  realms = codes "a" ∷ codes "b" ∷ [];
  records = λ action component. true;
  puts = true;
  starts = λ s. true;
  stops = λ s. if text_eq s (codes "public") then some false else some true;
  store = some true;
  store_name = codes "file";
  trail = λ r. some true;
  sink = none;
  sink_name = codes "log";
}

abbrev idle : Host
idle = record { health = health; done = [] }

run-released_example : visible (run answers idle).1.done ≡ visible [] ++ released answers
run-released_example = run-released answers idle
