-- ===== src/Host/Released.antt =====
-- What a run of the host makes ready and releases, on every branch.
use pic_x.Base.{
  Text, codes, none, some, List, [], ◌∷◌, ◌++◌, Bool, true, false, ◌&&◌, if◌then◌else◌, ◌≡◌, refl,
  sym, pure, modify, ◌>>=◌, ◌>>◌,
}
use mathlib.Core.List.{append-nil}
use pic_x.Host.{
  HostEvent, recorded, put_last_start, awaited_shutdown, started, stopped, made_ready,
  released_store, released_trail, released_sink, Host, Within, Answers, not_put, not_started,
  logged, asks, attempts, set_ready, record_audit, start_services, after_stop, stop_services, left,
  release_trails, start_up, conclude, release_audit, serve_and_stop, run,
}
use pic_x.Host.Visible.{
  visible, visible-append, Always, Shown, Always-then, Always-Shown, Always-pure, Always-value,
  asks-Always, Decided, attempts-Decided, Decided-then, Decided-Shown,
}

-- The services that stop, the last that was started first, and the trails, in their order.
abbrev pub stops : List Text → List HostEvent
stops [] = []
stops (s ∷ rest) = stops rest ++ stopped s ∷ []

abbrev pub trails : List Text → List HostEvent
trails [] = []
trails (r ∷ rest) = released_trail r ∷ trails rest

module _ (a : Answers) where
  after_stop-Always : (s : Text) (outcome : Within) → Always [] (after_stop a s outcome)
  unfolding visible
  after_stop-Always s (some true) h = record {
    value = [];
    after = logged (recorded (codes "service.stop") s) h;
    came = refl;
    shown = visible-append h.done (recorded (codes "service.stop") s ∷ []);
  }
  after_stop-Always s (some false) h = Always-pure (s ∷ []) h
  after_stop-Always s none h = Always-pure (s ∷ []) h

  stop_services-Always : (services : List Text) → Always (stops services) (stop_services a services)
  unfolding stop_services visible
  stop_services-Always [] = Always-pure []
  stop_services-Always (s ∷ rest) =
      Always-then (stops rest) (stopped s ∷ []) (stop_services a rest) _ (stop_services-Always rest)
        λ later.
          Always-then (stopped s ∷ []) [] (asks (a.stops s) (stopped s)) _
            (asks-Always (a.stops s) (stopped s))
            λ outcome.
              Always-then [] [] (after_stop a s outcome) _ (after_stop-Always s outcome)
                λ mine. Always-pure (later ++ mine)

  release_trails-Always : (realms : List Text) → Always (trails realms) (release_trails a realms)
  unfolding release_trails visible
  release_trails-Always [] = Always-pure []
  release_trails-Always (r ∷ rest) =
      Always-then (released_trail r ∷ []) (trails rest) (asks (a.trail r) (released_trail r))
        (λ outcome.
          release_trails a rest >>= λ others. pure (left a (codes "realm " ++ r) outcome ++ others))
        (asks-Always (a.trail r) (released_trail r))
        λ outcome. Always-value (trails rest) (release_trails a rest) _ (release_trails-Always rest)

  set_ready-Always : (ready : Bool) → Always (made_ready ready ∷ []) (set_ready ready)
  unfolding visible
  set_ready-Always ready h = record {
    value = tt;
    after = _;
    came = refl;
    shown = visible-append h.done (made_ready ready ∷ []);
  }

  await-Always : Always [] (modify (logged awaited_shutdown))
  unfolding visible
  await-Always h = record {
    value = tt;
    after = _;
    came = refl;
    shown = visible-append h.done (awaited_shutdown ∷ []);
  }

  serve_and_stop-Always :
      Always
        (made_ready true ∷ made_ready false ∷ stops a.services ++ released_store ∷ [])
        (serve_and_stop a)
  unfolding serve_and_stop visible
  serve_and_stop-Always =
      Always-then (made_ready true ∷ []) _ (set_ready true) _ (set_ready-Always true) λ _.
        Always-then [] _ (modify (logged awaited_shutdown)) _ await-Always λ _.
          Always-then (made_ready false ∷ []) _ (set_ready false) _ (set_ready-Always false) λ _.
            Always-then (stops a.services) (released_store ∷ []) (stop_services a a.services) _
              (stop_services-Always a.services)
              λ unfinished.
                Always-then (released_store ∷ []) [] (asks a.store released_store) _
                  (asks-Always a.store released_store)
                  λ store. Always-pure (unfinished ++ left a a.store_name store)

  conclude-Shown : (unfinished : List Text) → Shown [] (conclude a unfinished)
  conclude-Shown [] h = sym (append-nil (visible h.done))
  conclude-Shown (u ∷ us) h = sym (append-nil (visible h.done))

  release_audit-Shown :
      (unfinished : List Text)
      → Shown (trails a.realms ++ released_sink ∷ []) (release_audit a unfinished)
  unfolding release_audit visible
  release_audit-Shown unfinished =
      Always-Shown (trails a.realms) (released_sink ∷ []) (release_trails a a.realms)
        (λ trails. asks a.sink released_sink >>= λ sink.
          conclude a (unfinished ++ trails ++ left a a.sink_name sink))
        (release_trails-Always a.realms)
        λ trails.
          Always-Shown (released_sink ∷ []) [] (asks a.sink released_sink)
            (λ sink. conclude a (unfinished ++ trails ++ left a a.sink_name sink))
            (asks-Always a.sink released_sink)
            λ sink. conclude-Shown (unfinished ++ trails ++ left a a.sink_name sink)

module _ (a : Answers) where
  abbrev pub all_start : List Text → Bool
  all_start [] = true
  all_start (s ∷ rest) = a.starts s && (a.records (codes "service.start") s && all_start rest)

  -- The server comes up: its start is recorded, the store takes it, and every service starts and its
  -- start is recorded.
  abbrev pub comes_up : Bool
  comes_up = a.records (codes "server.start") a.name && (a.puts && all_start a.services)

  start_services-Decided :
      (services : List Text) → Decided (all_start services) (start_services a services)
  unfolding start_services
  start_services-Decided [] h = record {
    after = h;
    hidden = refl;
    goes = λ t. refl;
    fails = λ f. cc;
  }
  start_services-Decided (s ∷ rest) h =
      Decided-then (a.starts s) _ (attempts (a.starts s) (not_started s) (started s)) _
        (attempts-Decided (a.starts s) _ _ refl)
        (Decided-then (a.records (codes "service.start") s) (all_start rest)
          (record_audit a (codes "service.start") s) _
          (attempts-Decided (a.records (codes "service.start") s) _ _ refl)
          (start_services-Decided rest))
        h

  start_up-Decided : Decided comes_up (start_up a)
  unfolding start_up
  start_up-Decided =
      Decided-then (a.records (codes "server.start") a.name) _
        (record_audit a (codes "server.start") a.name) _
        (attempts-Decided (a.records (codes "server.start") a.name) _ _ refl)
        (Decided-then a.puts (all_start a.services) (attempts a.puts not_put put_last_start) _
          (attempts-Decided a.puts _ _ refl) (start_services-Decided a.services))

  -- What a run makes ready and releases.
  abbrev pub last_released : List HostEvent
  last_released =
      if a.records (codes "server.stop") a.name then trails a.realms ++ released_sink ∷ [] else []

  abbrev pub served : List HostEvent
  served = made_ready true ∷ made_ready false ∷ stops a.services ++ released_store ∷ []

  abbrev pub released : List HostEvent
  released = if comes_up then served ++ last_released else []

  ending :
      (unfinished : List Text)
      → Shown last_released
          (record_audit a (codes "server.stop") a.name >> release_audit a unfinished)
  ending unfinished =
      Decided-Shown (a.records (codes "server.stop") a.name) _
        (record_audit a (codes "server.stop") a.name) _
        (attempts-Decided (a.records (codes "server.stop") a.name) _ _ refl)
        (release_audit-Shown a unfinished)

  -- Whatever the services, the store, the trails and the sink answer, a run makes nothing ready and
  -- releases nothing if its start, the store's first write, or the start of a service or its record
  -- fails. Otherwise it is made ready and unready once, then every service is asked to stop, the
  -- last that was started first, then the store is released, and then, if the record of the stop
  -- could be written, the trail of each realm and last the audit sink.
  pub run-released : (h : Host) → visible (run a h).1.done ≡ visible h.done ++ released
  unfolding run
  run-released =
      Decided-Shown comes_up (served ++ last_released) (start_up a) _ start_up-Decided
        (Always-Shown served last_released (serve_and_stop a) _ (serve_and_stop-Always a) ending)
