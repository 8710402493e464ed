-- ===== src/UartServer/Clients/Tries.antt =====
-- The failed calls of `recv` that are counted.
use uav_mission_server.Prelude.{
  ℕ, ◌+◌, ◌≡◌, refl, inl, inr, arith, true, List, [], ◌∷◌, Option, none, some, if◌then◌else◌,
  ==_refl, Bool-cases,
}
use uav_mission_server.UartServer.State.{ClientNode, Server, Effect, wrote}
use uav_mission_server.UartServer.Clients.{id_eq, handle_commanding_client, reset_tryout}

-- The handler over the results of calls of `recv`.
abbrev pub recv_all : List (Option (List ℕ)) → Server → Server
recv_all [] s = s
recv_all (r ∷ rs) s = recv_all rs (handle_commanding_client r s)

abbrev pub fails : Option (List ℕ) → ℕ
fails none = 1
fails (some []) = 1
fails (some (b ∷ bs)) = 0

-- An error, or a connection closed at the other end.
abbrev pub failures : List (Option (List ℕ)) → ℕ
failures [] = 0
failures (r ∷ rs) = fails r + failures rs

abbrev pub writes : ℕ → Option (List ℕ) → List Effect → List Effect
writes id none log = log
writes id (some []) log = log
writes id (some (b ∷ bs)) log = wrote id (b ∷ bs) ∷ log

-- The log after what was received is written.
abbrev pub written : ℕ → List (Option (List ℕ)) → List Effect → List Effect
written id [] log = log
written id (r ∷ rs) log = written id rs (writes id r log)

-- The failures counted for the client now in command.
abbrev pub tries : Server → ℕ
tries s = if id_eq s.last_commander s.g_commanding_client then s.tryout else 0

-- All that the handler depends on beside the list.
pub record Keeps (c : ClientNode) (cs : List ClientNode) (n : ℕ) (log : List Effect) (s s' : Server)
    : Type 0 where
  pub clients : s'.g_clients ≡ c ∷ cs
  pub commander : s'.g_commanding_client ≡ s.g_commanding_client
  pub polled : s'.client_fd ≡ s.client_fd
  pub tried : tries s' ≡ tries s + n
  pub logged : s'.log ≡ log

id_eq_refl : (a : Option ℕ) → id_eq a a ≡ true
id_eq_refl none = refl
id_eq_refl (some n) = ==_refl n

pub reset_tryout-Keeps :
    (c : ClientNode) (cs : List ClientNode) (s : Server)
    → s.g_clients ≡ c ∷ cs
    → Keeps c cs 0 s.log s (reset_tryout s)
      × ((reset_tryout s).tryout ≡ tries s)
      × (id_eq (reset_tryout s).last_commander (reset_tryout s).g_commanding_client ≡ true)
reset_tryout-Keeps c cs s e = elim (Bool-cases (id_eq s.last_commander s.g_commanding_client)) [
  | inl same ↦ rw same (
    record {
      clients = e;
      commander = refl;
      polled = refl;
      tried = rw same (omega arith);
      logged = refl;
    },
    refl,
    same,
  )
  | inr other ↦ rw other (
    record {
      clients = e;
      commander = refl;
      polled = refl;
      tried = rw (id_eq_refl s.g_commanding_client) (rw other refl);
      logged = refl;
    },
    refl,
    id_eq_refl s.g_commanding_client,
  )
]
