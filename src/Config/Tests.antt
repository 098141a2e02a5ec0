-- ===== src/Config/Tests.antt =====
-- A configuration with other values than the default, and a file with comments.
use chater.Common.{◌≡◌, refl, true, some, [], ◌∷◌, arith}
use chater.Config.{Config, pos, negsuc, default_config, any_ip, find}
use chater.Config.Load.{load_config}
use chater.Config.RoundTrip.{printed, all_keys, IsPrintable, load_config-printed}

abbrev sample : Config
sample = record {
  trade_bind_ip = any_ip;
  trade_port = 9001;
  quote_bind_ip = 49 ∷ [];
  quote_port = 9002;
  io_thread_num = pos 0;
  worker_thread_num = pos 8;
  max_connections = negsuc 0;
  heartbeat_timeout = pos 30;
  log_level = 58 ∷ 32 ∷ [];
}

sample-IsPrintable : IsPrintable sample
unfolding find
sample-IsPrintable = record {
  trade_bind_ip_line = refl;
  trade_port_lt = omega arith;
  quote_bind_ip_line = refl;
  quote_port_lt = omega arith;
  io_thread_num_int = omega arith;
  worker_thread_num_int = omega arith;
  max_connections_int = omega arith;
  heartbeat_timeout_int = omega arith;
  log_level_line = refl;
}

load_config-printed_example :
    load_config (some (printed all_keys sample)) default_config ≡ some (true, sample)
load_config-printed_example = load_config-printed sample default_config sample-IsPrintable
