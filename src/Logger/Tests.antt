-- ===== src/Logger/Tests.antt =====
-- src/logger.rs with an access log in a file that opens.
use portiq.Base.{Str, Bool, ◌≡◌, inr, refl, List, true, Str, text, ok, returned}
use portiq.Config.{AccessLog, default_log, default_access_log}
use portiq.Logger.{LogSystem, Layer, init_layers, writers}
use portiq.Logger.Targets.{expected, init_layers_lem}

abbrev open_system : LogSystem
open_system = record {
  Metadata = Str × Bool;
  target = λ event. event.0;
  open_append = λ path. ok tt;
  directives_allow = λ directives event. event.1;
  info_allows = λ event. event.1;
}

abbrev access_file : AccessLog
access_file = record default_access_log { enabled = true; file_path = text "access.log" }

init_layers_lem_example :
    (layers : List Layer) × (init_layers open_system default_log access_file ≡ returned layers)
    × ((event : open_system.Metadata)
        → writers open_system layers event ≡ expected open_system default_log access_file event)
init_layers_lem_example =
    init_layers_lem open_system default_log access_file (inr refl) (λ enabled. inr refl)
