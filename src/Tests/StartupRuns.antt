-- ===== src/Tests/StartupRuns.antt =====
-- The start of the server with the configuration of ChatServer/etc/chatserver.conf.
use qt_chat.Base.{◌≡◌, arith, refl, true, false, List, [], ◌∷◌, ◌++◌, Option, none, some, ℕ}
use qt_chat.Base.Tests.{if◌then◌else◌}
use qt_chat.Base.Lists.{Str, codes, str_eq}
use qt_chat.Base.Map.{str_key}
use qt_chat.Pool.{Pool, new_pool, init}
use qt_chat.Logging.{Log, returned}
use qt_chat.Logging.Thread.{initial, init as init_log}
use qt_chat.Startup.{Host, serving, main, log_file}
use qt_chat.Startup.Ending.{Process, wind_down, drained, clean_exit}
use qt_chat.Server.Api.{reset_user_states}
use qt_chat.Server.State.{ran}
use qt_chat.Logging.Drain.{all_full}
use qt_chat.Tests.World.{json, tables, redis, with_conns}
use qt_chat.Startup.Ready.{is_serving, ready, serves_iff_ready}
use qt_chat.Startup.Served.{Served, serving_state}

abbrev line : Str → Str
line s = s ++ 10 ∷ []

abbrev chatserver_conf : Str
chatserver_conf =
    line (codes "#client listener")
    ++ (line (codes "listenip=0.0.0.0")
        ++ (line (codes "serverip=127.0.0.1")
            ++ (line (codes "serverport=8000")
                ++ (line []
                    ++ (line (codes "logfiledir=logs/")
                        ++ (line (codes "logfilename=chatserver")
                            ++ (line (codes "#mysql config")
                                ++ (line (codes "dbserver=127.0.0.1")
                                    ++ (line (codes "dbuser=root")
                                        ++ (line (codes "dbpassword=123456")
                                            ++ (line (codes "dbname=chat")
                                                ++ (line (codes "dbpoolsize=2")
                                                    ++ codes "dbmaxpoolsize=16"))))))))))))

abbrev conf_path : Str
conf_path = codes "/srv/bin/../etc/chatserver.conf"

abbrev created : ℕ → List (Option ℕ)
created n = some 7 ∷ none ∷ []

abbrev host : Host
host = record {
  exe = codes "/srv/bin/server";
  files = λ s. if str_eq s conf_path then some chatserver_conf else none;
  has_dir = λ s. str_eq s (codes "/srv/bin/../logs/");
  makes_dir = λ s. false;
  created = created;
  now = 5;
  stamp = codes "t";
  pid = codes "00042";
  prefix = codes "[FATAL]";
  place = λ file n. file;
  opens = true;
  accepts = λ k. 100;
  binds = λ ip port. true;
  args = [];
}

abbrev log_at_loop : Log
log_at_loop =
    init_log (codes "/srv/bin/server") (codes "/srv/bin/../logs/chatserver") false 10485760
      (codes "00042") initial

abbrev pool_at_loop : Pool
pool_at_loop = (init 2 16 created 5 new_pool).1

serves_as_configured : main host ≡ serving (codes "127.0.0.1") 8000 log_at_loop pool_at_loop
unfolding main str_eq init init_log
serves_as_configured = refl

serving_state_example : Served host (codes "127.0.0.1") 8000 log_at_loop pool_at_loop
serving_state_example =
    serving_state host (codes "127.0.0.1") 8000 log_at_loop pool_at_loop serves_as_configured

serves_iff_ready_example : is_serving (main host) ≡ ready host
serves_iff_ready_example = serves_iff_ready host

-- Without the folder for the log, the LOGF ends the process.
abbrev no_folder : Host
no_folder = record host { has_dir = λ s. false }

stops_without_folder : is_serving (main no_folder) ≡ false
unfolding main str_eq init
stops_without_folder = refl

-- Without the slash at the end of the folder, the log files stand beside it.
abbrev no_slash : Str
no_slash = log_file (record host { files = λ s. none }) (codes "logs")

beside_the_folder : no_slash ≡ codes "/srv/bin/../logschatserver"
unfolding log_file str_eq
beside_the_folder = refl

-- The log with a line that waits, and a signal.
abbrev running : Process (Unit {0}) (Unit {0})
running = record {
  service = with_conns [];
  pool = pool_at_loop;
  log = record log_at_loop { queue = codes "bye" ∷ [] };
}

abbrev five : ℕ → ℕ
five k = 5

abbrev stopped : Process (Unit {0}) (Unit {0})
stopped =
    wind_down json tables redis (drained json tables redis five (λ k. omega arith) (codes "t"))
      running

clean_exit_example :
    (stopped.service.trace ≡ ran reset_user_states ∷ [])
    × (stopped.pool.is_shut ≡ true)
    × (stopped.log.place ≡ returned)
    × (stopped.log.handle ≡ none)
    × (stopped.log.console ≡ codes "bye" ∷ [])
unfolding init_log initial all_full
clean_exit_example =
    clean_exit json tables redis five (λ k. omega arith) (codes "t") running refl refl refl refl
