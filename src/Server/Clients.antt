-- ===== src/Server/Clients.antt =====
-- board/ws_server.cpp: the clients of `ServerRuntime` (`accept_loop`, `broadcast`, `active_client_count`).
-- The session that is made for a connection is in `clients_` before its thread is started and before
-- it is sent the greeting, so that other messages may come first.
use voice_edge_monitor.Base.{
  ℕ, ◌+◌, ◌≤◌, ◌≡◌, refl, ap, ◌∙◌, Bool, true, false, List, [], ◌∷◌, ◌++◌, leb, map, if◌then◌else◌,
  arith,
}
use voice_edge_monitor.Session.{
  Message, Session, active, make, enqueue, writer_step, stop_step, notify_one, run_step, after_wait,
  take_message,
}
use voice_edge_monitor.Session.Steps.{Step, enqueues, notifies, stops, writes, runs}

pub record Clients : Type 0 where
  pub max_clients : ℕ
  pub client_queue_capacity : ℕ
  pub clients : List Session

abbrev pub count : Bool → ℕ
count true = 1
count false = 0

unfoldable pub count_active : List Session → ℕ
unfolding active
count_active [] = 0
count_active (c ∷ cs) = count (active c) + count_active cs

unfoldable pub active_client_count : Clients → ℕ
unfolding count_active
active_client_count s = count_active s.clients

-- A connection that `accept` returns: it is closed, or becomes a client.
unfoldable pub accept_client : Clients → Clients
unfolding count_active
accept_client s =
    if leb s.max_clients (count_active s.clients)
    then s
    else record s { clients = s.clients ++ make s.client_queue_capacity ∷ [] }

-- `broadcast`, for a list of the clients at one moment.
unfoldable pub broadcast : Message → Clients → Clients
broadcast m s = record s { clients = map (enqueue m) s.clients }

-- Any client makes any step of its threads, among them the `enqueue` of the greeting and of each
-- client's share in a broadcast.
pub data ClientStep : List Session → List Session → Type 0 where
  first_steps : (c d : Session) (cs : List Session) → Step c d → ClientStep (c ∷ cs) (d ∷ cs)
  later_steps :
      (c : Session) (cs ds : List Session) → ClientStep cs ds → ClientStep (c ∷ cs) (c ∷ ds)

pub data ServerStep (s : Clients) : Clients → Type 0 where
  accepts : ServerStep s (accept_client s)
  broadcasts : (m : Message) → ServerStep s (broadcast m s)
  client_steps :
      (cs : List Session) → ClientStep s.clients cs → ServerStep s (record s { clients = cs })

pub data Serves (s : Clients) : Clients → Type 0 where
  opened : Serves s s
  next : {t u : Clients} → Serves s t → ServerStep t u → Serves s u

-- No step makes a stopped session active.
Step-active : (c d : Session) → Step c d → count (active d) ≤ count (active c)
unfolding active enqueue notify_one stop_step writer_step after_wait take_message run_step
Step-active c d (enqueues m h) = ground arith
Step-active c d (notifies t e) = ground arith
Step-active c d (stops t e) = ground arith
Step-active c d (writes fails t e) = ground arith
Step-active c d (runs fails t e) = ground arith

enqueue-active : (m : Message) (c : Session) → active (enqueue m c) ≡ active c
unfolding enqueue active
enqueue-active m c = ground arith

broadcast-active :
    (m : Message) (cs : List Session) → count_active (map (enqueue m) cs) ≡ count_active cs
unfolding count_active
broadcast-active m [] = refl
broadcast-active m (c ∷ cs) = omega (arith, broadcast-active m cs, ap count (enqueue-active m c))

ClientStep-active : (cs ds : List Session) → ClientStep cs ds → count_active ds ≤ count_active cs
unfolding count_active
ClientStep-active cs ds (first_steps c d cs' st) = omega (arith, Step-active c d st)
ClientStep-active cs ds (later_steps c cs' ds' st) = omega (arith, ClientStep-active cs' ds' st)

append-active : (cs : List Session) (n : ℕ) → count_active (cs ++ make n ∷ []) ≤ count_active cs + 1
unfolding count_active active make
append-active [] n = ground arith
append-active (c ∷ cs) n = omega (arith, append-active cs n)

ServerStep-max :
    (s t : Clients)
    → ServerStep s t
    → active_client_count s ≤ s.max_clients
    → (t.max_clients ≡ s.max_clients) × (active_client_count t ≤ t.max_clients)
unfolding active_client_count accept_client broadcast
ServerStep-max s t accepts h = ground (arith, append-active s.clients s.client_queue_capacity)
ServerStep-max s t (broadcasts m) h = (refl, omega (arith, h, broadcast-active m s.clients))
ServerStep-max s t (client_steps cs st) h =
    (refl, omega (arith, h, ClientStep-active s.clients cs st))

serves-max :
    (s t : Clients)
    → Serves s t
    → active_client_count s ≤ s.max_clients
    → (t.max_clients ≡ s.max_clients) × (active_client_count t ≤ t.max_clients)
serves-max s t opened h = (refl, h)
serves-max s t (next {t = u} r st) h =
    let (e, h') = serves-max s u r h in let (e', h'') = ServerStep-max u t st h' in (e' ∙ e, h'')

-- Whatever connections come in, and whatever the clients' threads do in between, no more than
-- `max_clients` clients are active.
pub active_clients_max :
    (max_clients capacity : ℕ) (t : Clients)
    → Serves
        (record { max_clients = max_clients; client_queue_capacity = capacity; clients = [] })
        t
    → active_client_count t ≤ max_clients
unfolding active_client_count count_active
active_clients_max max_clients capacity t r = omega (
  arith,
  serves-max (record { max_clients = max_clients; client_queue_capacity = capacity; clients = [] })
      t r (omega arith),
)
