-- ===== src/UartServer/Clients.antt =====
-- src/uart_server.c: the handlers that connect, serve and drop clients. A pointer to a link of the
-- list, as `terminate_client` takes it, is the position of that link: 0 for `&g_clients`. Results of
-- `accept`, `send` and `recv` are arguments.
pub mod Invariant
pub mod Broadcast
pub mod Delivered
pub mod Served
pub mod Returns
pub mod Writers
pub mod Heard
pub mod Writes
pub mod Tries
pub mod Unresponsive
pub mod Tests
use uav_mission_server.Prelude.{
  ℕ, zero, suc, ◌+◌, ◌-◌, Bool, true, false, not, ◌||◌, List, [], ◌∷◌, ◌++◌, Option, none, some,
  length, get_elem?, take, drop, ltb, leb, ◌==◌, if◌then◌else◌,
}
use uav_mission_server.UartServer.State.{ClientNode, Effect, sent, closed, wrote, parsed, Server}

-- Equality of ids, -1 included.
abbrev pub id_eq : Option ℕ → Option ℕ → Bool
id_eq none none = true
id_eq none (some b) = false
id_eq (some a) none = false
id_eq (some a) (some b) = a == b

-- `++g_last_id`. The `int` overflows behind 2^31 clients; Loop/Ids bounds it by the rounds of the main
-- loop.
abbrev pub next_id : Option ℕ → ℕ
next_id none = 0
next_id (some n) = suc n

-- What `accept` gave: the socket (`none` is INVALID_SOCKET), whether the address has the length and
-- the family of an IPv4 address, and the address.
pub record Accepted : Type 0 where
  pub socket : Option ℕ
  pub is_inet : Bool
  pub addr : ℕ
  pub port : ℕ

abbrev pub log_effect : Effect → Server → Server
log_effect e s = record s { log = e ∷ s.log }

abbrev pub append_client : ℕ → Accepted → Server → Server
append_client fd a s = record s {
  g_last_id = some (next_id s.g_last_id);
  g_clients =
      s.g_clients
      ++ record { id = next_id s.g_last_id; addr = a.addr; port = a.port; client = fd } ∷ [];
}

-- On a failure `cleanup` closes the socket if there is one.
unfoldable pub accept_with : Option ℕ → Accepted → Server → Server × Bool
accept_with none a s = (s, false)
accept_with (some fd) a s =
    if not a.is_inet
    then ((if fd == 0 then s else log_effect (closed fd) s), false)
    else (append_client fd a s, true)

-- `allocated` is whether `malloc` gave a node.
unfoldable pub accept_client : Bool → Accepted → Server → Server × Bool
unfolding accept_with
accept_client allocated a s = if allocated then accept_with a.socket a s else (s, false)

-- The list without the node at a position.
abbrev pub remove_at : ℕ → List ClientNode → List ClientNode
remove_at i [] = []
remove_at zero (c ∷ cs) = cs
remove_at (suc i) (c ∷ cs) = c ∷ remove_at i cs

-- The part of `terminate_client` behind its guard: `node` is the node at link `i`.
unfoldable pub unlink : ClientNode → ℕ → Server → Server
unlink node i s = record s {
  client_fd = if id_eq (some node.id) s.g_commanding_client then none else s.client_fd;
  g_clients = remove_at i s.g_clients;
  log = closed node.client ∷ s.log;
}

-- The guard `!node || !pointer || *pointer != node`; ids tell nodes apart. The result is the next
-- node, NULL if the guard stops the call.
unfoldable pub terminate_client : Option ClientNode → ℕ → Server → Server × Option ClientNode
unfolding unlink
terminate_client none i s = (s, none)
terminate_client (some node) i s = elim (get_elem? s.g_clients i) [
  | none ↦ (s, none)
  | some here ↦
      if here.id == node.id
      then (unlink node i s, get_elem? (unlink node i s).g_clients i)
      else (s, none)
]

-- What became of the calls of `send` for one client: an error, or everything sent, with the log and
-- the results that are left for the next client; or the calls go on past the results given.
pub data Sending : Type 0 where
  failed delivered : List Effect → List (Option ℕ) → Sending
  pending : Sending

-- The loop over `send` for one client. A result `none` is a negative one.
unfoldable pub send_all : List (Option ℕ) → ℕ → List ℕ → ℕ → List Effect → Sending
send_all [] fd bytes done log = pending
send_all (none ∷ results) fd bytes done log = failed log results
send_all (some n ∷ results) fd bytes done log =
    let log' : List Effect = sent fd (take n (drop done bytes)) ∷ log in
    let rest = send_all results fd bytes (done + n) log' in
    if done + n == length bytes then delivered log' results else rest

-- The loop over the clients: `current` is the node at link `i`. The first argument bounds the
-- rounds; `none` is that bound reached, or a client whose calls go on.
unfoldable pub send_loop :
    ℕ → List (Option ℕ) → List ℕ → ℕ → Option ClientNode → Server → Option Server
send_loop rounds results bytes i none s = some s
send_loop zero results bytes i (some node) s = none
send_loop (suc rounds) results bytes i (some node) s =
    elim (send_all results node.client bytes 0 s.log) [
      | pending ↦ none
      | failed log rest ↦
          (let (s', current) = terminate_client (some node) i (record s { log = log }) in
            send_loop rounds rest bytes i current s')
      | delivered log rest ↦
          send_loop rounds rest bytes (i + 1) (get_elem? s.g_clients (i + 1))
            (record s { log = log })
    ]

-- `received` is what `serial_read` stored, `none` for an error.
unfoldable pub send_data_to_clients : Option (List ℕ) → List (Option ℕ) → Server → Option Server
unfolding send_loop
send_data_to_clients none results s = some s
send_data_to_clients (some []) results s = some s
send_data_to_clients (some (b ∷ bs)) results s =
    send_loop (length s.g_clients) results (b ∷ bs) 0 (get_elem? s.g_clients 0)
      (log_effect (parsed (b ∷ bs)) s)

abbrev pub reset_tryout : Server → Server
reset_tryout s =
    if id_eq s.last_commander s.g_commanding_client
    then s
    else record s { last_commander = s.g_commanding_client; tryout = 0 }

-- `if (tryout++ == 3)`
abbrev pub recv_failed : ClientNode → Server → Server
recv_failed head s =
    let s' = record s { tryout = s.tryout + 1 } in
    if s.tryout == 3 then (terminate_client (some head) 0 s').0 else s'

abbrev pub recv_from : ClientNode → Option (List ℕ) → Server → Server
recv_from head none s = recv_failed head s
recv_from head (some []) s = recv_failed head s
recv_from head (some (b ∷ bs)) s = log_effect (wrote head.id (b ∷ bs)) s

-- The handler over the list that `g_clients` holds.
abbrev pub serve_head : List ClientNode → Option (List ℕ) → Server → Server
serve_head [] received s = s
serve_head (head ∷ tail) received s = recv_from head received (reset_tryout s)

-- `received` is what `recv` stored, `none` for an error.
unfoldable pub handle_commanding_client : Option (List ℕ) → Server → Server
unfolding terminate_client
handle_commanding_client received s = serve_head s.g_clients received s
