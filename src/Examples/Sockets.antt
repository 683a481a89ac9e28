-- ===== src/Examples/Sockets.antt =====
-- Runs of the subscription and of the receiver, and their theorems at these runs.
use x_cache_manager.Prelude.{false, true, ◌≡◌, refl, some, [], ◌∷◌}
use x_cache_manager.Prelude.Integer.{pos}
use x_cache_manager.Subscriber
use x_cache_manager.Subscriber.{
  Manager, live, freed, dispatching, outside, away, attached, inits, connects, connected,
  disconnected,
}
use x_cache_manager.Subscriber.Replies
use x_cache_manager.Subscriber.Replies.{string_array, command_callback}
use x_cache_manager.Redis
use x_cache_manager.Receiver
use x_cache_manager.Receiver.{
  Receiver, Settings, File, System, created, calls, starts, handles, receive_stop, construct, init,
}
use x_cache_manager.Receiver.Permissions.{Sets, init-Sets}
use x_cache_manager.Receiver.Listening
use x_cache_manager.Receiver.Listening.{IsListening, run-IsListening}

program : Unit {0}
unfolding Subscriber.construct Subscriber.init Subscriber.sub_connect Subscriber.is_zero
    Subscriber.set_running Subscriber.enter_loop Subscriber.connect Subscriber.connect_callback
    Subscriber.disconnect_callback Replies.digits Replies.to_string Replies.element Replies.elements
    Replies.on_reply command_callback construct created Receiver.receive Receiver.receive_start
    receive_stop Receiver.io_run Receiver.call Receiver.is_free Receiver.abort_from Receiver.abort
program = tt

abbrev looping : Manager
looping = record {
  redis = true;
  redis_ctx = live;
  status = pos 0;
  running = true;
  loop = dispatching;
  stopper = outside;
}

-- The server has ended the connection: the pointer to the context stays.
abbrev dangling : Manager
dangling = record looping { redis_ctx = freed }

run : Subscriber.Run Subscriber.construct dangling
unfolding program
run =
    Subscriber.next
      (Subscriber.next (Subscriber.next Subscriber.start (inits true refl refl refl refl))
        (connects attached refl refl refl))
      (disconnected true refl refl refl)

-- A message and a number.
delivered :
    command_callback (
      some (
        Redis.array
          (Redis.item (Redis.string (b'm' ∷ [])) (Redis.item (Redis.integer (pos 12)) Redis.end))))
    ≡ some (string_array ((b'm' ∷ []) ∷ (b'1' ∷ b'2' ∷ []) ∷ []))
unfolding program
delivered = refl

-- The permissions 0660.
abbrev settings : Settings
settings = record {
  socket_path = b's' ∷ [];
  socket_owner = b'o' ∷ [];
  socket_group = b'g' ∷ [];
  socket_perms = 432;
}

abbrev system : System
system = record {
  stat_works = true;
  getpwnam = λ name. some 33;
  getgrnam = λ name. some 34;
  chown_works = true;
  chmod_works = true;
  unlink_works = false;
  unlink_absent = true;
  bind_works = true;
}

-- A socket with the mode 0755.
abbrev fresh : File
fresh = record { st_uid = 0; st_gid = 0; st_mode = 49645 }

init-Sets_example : Sets system settings fresh (init system settings fresh)
unfolding program
init-Sets_example =
    init-Sets system (b's' ∷ []) (b'o' ∷ []) (b'g' ∷ []) (pos 432) settings fresh refl

abbrev started : Receiver
started = record {
  is_running = true;
  thread_running = false;
  armed = 1;
  cancelled = 0;
  handling = false;
  lines = [];
}

received : Receiver.Run created started
unfolding program
received = Receiver.next Receiver.start (calls starts refl)

run-IsListening_example : IsListening started
run-IsListening_example = run-IsListening started received

abbrev stopped : Receiver
stopped = record started { is_running = false; cancelled = 1; armed = 0 }

abbrev aborted : Receiver
aborted = record stopped { thread_running = true; cancelled = 0 }
