-- ===== src/Samples.antt =====
-- Concrete files and a concrete snapshot, at which the theorems are applied.
use sys_scope.Base.{false, List, [], ◌∷◌, none, some, Text, codes, Micro, micro_double}
use sys_scope.Core.Result.{ok}
use sys_scope.Core.Snapshot.{MetricSnapshot, blank_cpu, blank_core, blank_psi, blank_pressure}
use sys_scope.Platform.Files.{Reader}

-- Files that all hold the same lines and text, in directories with the same entries.
abbrev pub uniform : List Text → Text → List Text → Reader
uniform ls text names = record {
  read_file_contents = λ path. ok text;
  read_file_lines = λ path. ok ls;
  file_exists = λ path. false;
  list_directory_entries = λ path. ok names;
}

-- A machine with a core, with 76 percent of its time used, a zone at 80 degrees, and memory stalls.
abbrev pub overheated : MetricSnapshot Micro
overheated = record {
  timestamp = 50;
  cpu = record blank_cpu { total_utilization = 76_000_000; per_core = blank_core ∷ [] };
  memory = record {
    total_bytes = 1000;
    available_bytes = 200;
    free_bytes = 100;
    used_bytes = 800;
    cached_bytes = 50;
    buffers_bytes = 50;
    swap_total_bytes = 0;
    swap_free_bytes = 0;
    swap_used_bytes = 0;
    utilization_percent = 80_000_000;
  };
  processes = record { total_processes = 0; running_processes = 0; process_list = [] };
  gpu = none;
  network = none;
  thermal = some (record {
    zones =
        (record {
          name = codes "thermal_zone0";
          type = codes "x86";
          temperature_celsius = 80_000_000;
        })
        ∷ [];
  });
  disk = none;
  psi = some (record blank_psi { memory_some = record blank_pressure { avg10 = 6_000_000 } });
}
