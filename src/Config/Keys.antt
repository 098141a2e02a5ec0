-- ===== src/Config/Keys.antt =====
-- The settings of a configuration, by their names.
use chater.Common.{Bool, true, false, ◌&&◌, Option, none, some, [], ◌∷◌, ◌==◌, if◌then◌else◌, ◌>>=◌}
use chater.Config.{Text, Config, atoi, to_uint16}

-- The settings that a line can have.
pub data Key : Type 0 where
  trade_bind_ip_key : Key
  trade_port_key : Key
  quote_bind_ip_key : Key
  quote_port_key : Key
  io_thread_num_key : Key
  worker_thread_num_key : Key
  max_connections_key : Key
  heartbeat_timeout_key : Key
  log_level_key : Key

unfoldable pub key_text : Key → Text
key_text trade_bind_ip_key =
    116 ∷ 114 ∷ 97 ∷ 100 ∷ 101 ∷ 95 ∷ 98 ∷ 105 ∷ 110 ∷ 100 ∷ 95 ∷ 105 ∷ 112 ∷ []
key_text trade_port_key = 116 ∷ 114 ∷ 97 ∷ 100 ∷ 101 ∷ 95 ∷ 112 ∷ 111 ∷ 114 ∷ 116 ∷ []
key_text quote_bind_ip_key =
    113 ∷ 117 ∷ 111 ∷ 116 ∷ 101 ∷ 95 ∷ 98 ∷ 105 ∷ 110 ∷ 100 ∷ 95 ∷ 105 ∷ 112 ∷ []
key_text quote_port_key = 113 ∷ 117 ∷ 111 ∷ 116 ∷ 101 ∷ 95 ∷ 112 ∷ 111 ∷ 114 ∷ 116 ∷ []
key_text io_thread_num_key =
    105 ∷ 111 ∷ 95 ∷ 116 ∷ 104 ∷ 114 ∷ 101 ∷ 97 ∷ 100 ∷ 95 ∷ 110 ∷ 117 ∷ 109 ∷ []
key_text worker_thread_num_key =
    119 ∷ 111 ∷ 114 ∷ 107 ∷ 101 ∷ 114 ∷ 95 ∷ 116 ∷ 104 ∷ 114 ∷ 101 ∷ 97 ∷ 100 ∷ 95 ∷ 110 ∷ 117 ∷ 109
    ∷ []
key_text max_connections_key =
    109 ∷ 97 ∷ 120 ∷ 95 ∷ 99 ∷ 111 ∷ 110 ∷ 110 ∷ 101 ∷ 99 ∷ 116 ∷ 105 ∷ 111 ∷ 110 ∷ 115 ∷ []
key_text heartbeat_timeout_key =
    104 ∷ 101 ∷ 97 ∷ 114 ∷ 116 ∷ 98 ∷ 101 ∷ 97 ∷ 116 ∷ 95 ∷ 116 ∷ 105 ∷ 109 ∷ 101 ∷ 111 ∷ 117 ∷ 116
    ∷ []
key_text log_level_key = 108 ∷ 111 ∷ 103 ∷ 95 ∷ 108 ∷ 101 ∷ 118 ∷ 101 ∷ 108 ∷ []

unfoldable pub same : Text → Text → Bool
same [] [] = true
same [] (d ∷ t) = false
same (c ∷ s) [] = false
same (c ∷ s) (d ∷ t) = (c == d) && same s t

-- The chain of comparisons with the names of the settings.
unfoldable pub key_of : Text → Option Key
unfolding key_text same
key_of k =
    if same k (key_text trade_bind_ip_key)
    then some trade_bind_ip_key
    else (if same k (key_text trade_port_key)
        then some trade_port_key
        else (if same k (key_text quote_bind_ip_key)
            then some quote_bind_ip_key
            else (if same k (key_text quote_port_key)
                then some quote_port_key
                else (if same k (key_text io_thread_num_key)
                    then some io_thread_num_key
                    else (if same k (key_text worker_thread_num_key)
                        then some worker_thread_num_key
                        else (if same k (key_text max_connections_key)
                            then some max_connections_key
                            else (if same k (key_text heartbeat_timeout_key)
                                then some heartbeat_timeout_key
                                else (if same k (key_text log_level_key)
                                    then some log_level_key
                                    else (none)))))))))

unfoldable pub set_key : Key → Text → Config → Option Config
unfolding atoi to_uint16
set_key trade_bind_ip_key v c = some (record c { trade_bind_ip = v })
set_key trade_port_key v c = do n ← atoi v; some (record c { trade_port = to_uint16 n })
set_key quote_bind_ip_key v c = some (record c { quote_bind_ip = v })
set_key quote_port_key v c = do n ← atoi v; some (record c { quote_port = to_uint16 n })
set_key io_thread_num_key v c = do n ← atoi v; some (record c { io_thread_num = n })
set_key worker_thread_num_key v c = do n ← atoi v; some (record c { worker_thread_num = n })
set_key max_connections_key v c = do n ← atoi v; some (record c { max_connections = n })
set_key heartbeat_timeout_key v c = do n ← atoi v; some (record c { heartbeat_timeout = n })
set_key log_level_key v c = some (record c { log_level = v })
