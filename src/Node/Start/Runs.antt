-- ===== src/Node/Start/Runs.antt =====
-- The theorems on start and stop in a concrete environment.
use afi920_ros2_driver.Base.{ℤ, pos, negsuc, true, false, some, [], ◌∷◌}
use afi920_ros2_driver.Node.Start.Started.{IsStarted, start-IsStarted}
use afi920_ros2_driver.Node.Start.{declare_parameters, Network, Environment, start}

-- Only the health stream can be connected.
abbrev network : ℤ → Network
network fd = record {
  dial = record {
    socket = fd;
    address_parsed = true;
    connect_started = true;
    selected = true;
    error_free = true;
  };
  bind = record { socket = fd; bound = λ o. false };
}

abbrev environment : Environment
environment = record {
  local = record {
    local_socket = pos 4;
    remote_parsed = true;
    routed = true;
    named = true;
    printed = some (49 ∷ []);
  };
  config = record {
    socket = negsuc 0;
    address_parsed = true;
    connected = true;
    sends = [];
    answers = [];
  };
  rdi_network = network (negsuc 0);
  shi_network = network (pos 7);
  spi_network = network (negsuc 0);
}

start-IsStarted_example :
    IsStarted declare_parameters environment (start declare_parameters environment)
start-IsStarted_example = start-IsStarted declare_parameters environment
