-- ===== src/Limits/Tests.antt =====
-- The theorems on notifications of app/src/notify.rs and updates of app/src/update.rs at concrete
-- bells and versions.
use limux.Prelude.{◌≢◌, ◌↔◌, ◌≡◌, none, some, text, refl, arith, true, false, List, [], ◌∷◌, lookup}
use limux.Limits.Update.{Version, Settings, prompts}
use limux.Limits.Versions.{tag, dotted, InRange, Newer, prompts-tag}
use limux.Limits.Notify.{Notify, nanos}
use limux.Limits.Burst.{Event, bell, focus, handle_all, Tracks, Paced, handle_all-Paced}

abbrev fresh : Notify
fresh = record { enabled = true; window_active = false; last_notify = []; recent = [] }

fresh-Tracks : Tracks 0 fresh []
unfolding lookup
fresh-Tracks = record { last = λ w. refl; window = λ now h. refl; paced = tt }

abbrev bells : List Event
bells =
    bell 1 (nanos 20)
    ∷ bell 2 (nanos 21)
    ∷ focus true
    ∷ bell 3 (nanos 22)
    ∷ focus false
    ∷ bell 1 (nanos 24)
    ∷ bell 3 (nanos 25)
    ∷ bell 4 (nanos 26)
    ∷ []

handle_all-Paced_example : Paced (handle_all bells (fresh, [])).1
handle_all-Paced_example =
    handle_all-Paced bells 0 fresh []
      (omega arith, (omega arith, (omega arith, (omega arith, (omega arith, (omega arith, tt))))))
      fresh-Tracks

abbrev older : Version
older = record { major = 1; minor = 9; patch = 12 }

abbrev newer : Version
newer = record { major = 1; minor = 10; patch = 0 }

older-InRange : InRange older
older-InRange = record { major = omega arith; minor = omega arith; patch = omega arith }

newer-InRange : InRange newer
newer-InRange = record { major = omega arith; minor = omega arith; patch = omega arith }

abbrev weekly : Settings
weekly = record {
  check_for_updates = true;
  last_update_check = some 1000;
  update_check_frequency = text "weekly";
  skip_update_version = none;
}

prompts-tag_example :
    (prompts weekly (tag newer) (dotted older) ≡ true)
    ↔ (Newer newer older × (weekly.skip_update_version ≢ some (tag newer)))
prompts-tag_example = prompts-tag weekly newer older newer-InRange older-InRange
