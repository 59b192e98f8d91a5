-- ===== src/Scheduler/Nominator/Tests.antt =====
-- Nominations at concrete inputs.
use Prim.Native.String.{String}
use flowline.Base.{Option, none, some, [], if◌then◌else◌}
use flowline.Base.Int.{pos}
use flowline.Base.Keys.{text_key, same, text_same}
use flowline.Scheduler.Types.{Stage}
use flowline.Scheduler.Nominator.{NominatingInfo, mode_override, new_nominator, add, may_nominate}
use flowline.Scheduler.Nominator.Laws.{Nominated, new-Agree, add_nominates}

abbrev build : Stage
build = record {
  name = "build";
  uid = "build";
  worker_uid = "";
  resource_version = "1";
  generation = 1;
  finalizers = [];
  priority = pos 2;
  content = "";
}

abbrev known : Option (String → Option Stage)
known = some (λ uid. if same uid "build" then some build else none)

abbrev to_w1 : Option NominatingInfo
to_w1 = some (record { nominated_worker_name = "w1"; nominating_mode = mode_override })

add_nominates_example :
    Nominated known new_nominator "build" (some "w1") (add known new_nominator build to_w1)
unfolding may_nominate text_same
add_nominates_example = add_nominates known new_nominator build to_w1 new-Agree
