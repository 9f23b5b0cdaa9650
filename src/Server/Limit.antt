-- ===== src/Server/Limit.antt =====
-- pftp/server.go and pftp/client_handler.go: the count of connections and the limit of clients.
use pftp.Base.{
  ℕ, suc, ◌+◌, ◌%◌, ◌^◌, ◌<◌, ◌≤◌, Bool, true, false, not, ◌||◌, List, [], ◌∷◌, ◌++◌, ◌≡◌, refl,
  ◌∙◌, ap, subst, arith, length, if◌then◌else◌, int32_lt, Bool-cases, inl, inr, leb,
}
use pftp.Config.{Config}
use pftp.Server.Connections.{
  Phase, arrived, admitted, turned_away, Client, System, accept, decide, release, Step, accepts,
  checks, ends, Reach, begin, later,
}
use pftp.Server.{Server}
use pftp.Session.Start.{new_client_handler, over_limit, with_masquerade}
use pftp.World.{Conn, World}

abbrev pub is_admitted : Phase → Bool
is_admitted admitted = true
is_admitted arrived = false
is_admitted turned_away = false

-- the clients that passed the check of the limit
abbrev pub admitted_count : List Client → ℕ
admitted_count [] = 0
admitted_count (c ∷ cs) = if is_admitted c.phase then suc (admitted_count cs) else admitted_count cs

module _ (max : ℕ) where
  -- a client that is the last of so many
  record Fits (n : ℕ) (c : Client) : Type 0 where
    counted : n ≤ c.conn_counts
    bounded : c.conn_counts < 2 ^ 31
    checked : (not (is_admitted c.phase) || not (int32_lt max c.conn_counts)) ≡ true

  -- every client counted at least those that were there when it arrived and still are
  abbrev Ranked : List Client → Type 0
  Ranked [] = Unit
  Ranked (c ∷ cs) = Fits (suc (length cs)) c × Ranked cs

  Fits-less : (n k : ℕ) (c : Client) → k ≤ n → Fits n c → Fits k c
  Fits-less n k c h f = record {
    counted = ground (arith, f.counted);
    bounded = f.bounded;
    checked = f.checked;
  }

  length_replace :
      (before after : List Client) (c d : Client)
      → length (before ++ c ∷ after) ≡ length (before ++ d ∷ after)
  length_replace [] after c d = refl
  length_replace (x ∷ before) after c d = ap suc (length_replace before after c d)

  length_remove :
      (before after : List Client) (c : Client)
      → length (before ++ c ∷ after) ≡ suc (length (before ++ after))
  length_remove [] after c = refl
  length_remove (x ∷ before) after c = ap suc (length_remove before after c)

  Ranked-remove :
      (before after : List Client) (c : Client)
      → Ranked (before ++ c ∷ after)
      → Ranked (before ++ after)
  Ranked-remove [] after c h = h.1
  Ranked-remove (x ∷ before) after c h = (
    Fits-less _ _ x (ground (arith, length_remove before after c)) h.0,
    Ranked-remove before after c h.1,
  )

  decide-Fits :
      (config : Config) (n : ℕ) (c : Client)
      → config.max_connections ≡ max
      → Fits n c
      → Fits n (decide config c)
  unfolding decide
  decide-Fits config n c h f = record {
    counted = f.counted;
    bounded = f.bounded;
    checked = ground arith;
  }

  Ranked-replace :
      (config : Config) (before after : List Client) (c : Client)
      → config.max_connections ≡ max
      → Ranked (before ++ c ∷ after)
      → Ranked (before ++ decide config c ∷ after)
  Ranked-replace config [] after c h r = (decide-Fits config _ c h r.0, r.1)
  Ranked-replace config (x ∷ before) after c h r = (
    subst (λ n. Fits (suc n) x) (length_replace before after c (decide config c)) r.0,
    Ranked-replace config before after c h r.1,
  )

  admitted_le : (cs : List Client) → admitted_count cs ≤ length cs
  admitted_le [] = ground arith
  admitted_le (c ∷ cs) = ground (arith, admitted_le cs)

  Fits-admitted :
      (n : ℕ) (c : Client) → Fits n c → max < 2 ^ 31 → is_admitted c.phase ≡ true → n ≤ max
  Fits-admitted n c f h q = ground (arith, f.counted, f.bounded, f.checked)

  Ranked-admitted_count : (cs : List Client) → max < 2 ^ 31 → Ranked cs → admitted_count cs ≤ max
  Ranked-admitted_count [] h r = ground arith
  Ranked-admitted_count (c ∷ cs) h r = elim (Bool-cases (is_admitted c.phase)) [
    | inl passed ↦ ground (arith, Fits-admitted (suc (length cs)) c r.0 h passed, admitted_le cs)
    | inr waiting ↦ ground (arith, Ranked-admitted_count cs h r.1)
  ]

  -- What holds of the server at any time.
  record Counted (y : System) : Type 0 where
    max_same : y.server.config.max_connections ≡ max
    every_one : y.server.current_connection ≡ length y.clients
    few : length y.clients < 2 ^ 31
    ranked : Ranked y.clients

  with_masquerade-max_connections :
      (config : Config) (conn : Conn)
      → (with_masquerade config conn).max_connections ≡ config.max_connections
  unfolding with_masquerade
  with_masquerade-max_connections config conn = ground arith

  accept-Counted :
      (conn : Conn) (w : World) (y : System)
      → length y.clients + 1 < 2 ^ 31
      → Counted y
      → Counted (accept conn w y)
  unfolding accept new_client_handler
  accept-Counted conn w y h k =
      let now : (y.server.current_connection + 1) % 2 ^ 32 ≡ suc (length y.clients) =
        ground (arith, k.every_one) in
      record {
        max_same = with_masquerade-max_connections y.server.config conn ∙ k.max_same;
        every_one = now;
        few = ground arith;
        ranked =
            (record { counted = ground arith; bounded = ground arith; checked = refl }, k.ranked);
      }

  ends-Counted :
      (before after : List Client) (c : Client) (y : System)
      → y.clients ≡ before ++ c ∷ after
      → Counted y
      → Counted (release before after y)
  unfolding release
  ends-Counted before after c y e k =
      let one_more : length y.clients ≡ suc (length (before ++ after)) =
        ap length e ∙ length_remove before after c in
      record {
        max_same = k.max_same;
        every_one = ground (arith, one_more, k.every_one, k.few);
        few = ground (arith, one_more, k.few);
        ranked = Ranked-remove before after c (subst Ranked e k.ranked);
      }

  step-Counted : {a b : System} → Step a b → Counted a → Counted b
  step-Counted {a} (accepts conn w h) k = accept-Counted conn w a h k
  step-Counted {a} (checks before after c e _) k =
      let same_length = length_replace before after c (decide a.server.config c) in
      record {
        max_same = k.max_same;
        every_one = k.every_one ∙ ap length e ∙ same_length;
        few = ground (arith, same_length, ap length e, k.few);
        ranked = Ranked-replace a.server.config before after c k.max_same (subst Ranked e k.ranked);
      }
  step-Counted {a} (ends before after c e) k = ends-Counted before after c a e k

  Reach-Counted : {a b : System} → Reach a b → Counted a → Counted b
  Reach-Counted begin k = k
  Reach-Counted (later r s) k = step-Counted s (Reach-Counted r k)

-- a server that has not accepted a connection
abbrev pub fresh : Server → System
fresh server = record { server = record server { current_connection = 0 }; clients = [] }

fresh-Counted : (server : Server) → Counted server.config.max_connections (fresh server)
fresh-Counted server = record { max_same = refl; every_one = refl; few = ground arith; ranked = tt }

-- In every order of arrivals, checks and ends, no more clients are beyond the check of the limit than
-- the configuration allows, where that limit is not negative.
pub Reach-admitted_count :
    (server : Server) (y : System)
    → server.config.max_connections < 2 ^ 31
    → Reach (fresh server) y
    → admitted_count y.clients ≤ server.config.max_connections
Reach-admitted_count server y h r =
    let max = server.config.max_connections in
    Ranked-admitted_count max y.clients h (Reach-Counted max r (fresh-Counted server)).ranked

-- In every order of arrivals, checks and ends, the shared count is the number of the connections that
-- are open.
pub Reach-current_connection :
    (server : Server) (y : System)
    → Reach (fresh server) y
    → y.server.current_connection ≡ length y.clients
Reach-current_connection server y r =
    (Reach-Counted server.config.max_connections r (fresh-Counted server)).every_one

-- The check of a connection that has just been accepted refuses it exactly where as many connections
-- as the limit allows are open already, where the limit is not negative and there are fewer than
-- 2 ^ 31 connections with it.
pub Reach-over_limit :
    (server : Server) (y : System) (conn : Conn) (w : World)
    → server.config.max_connections < 2 ^ 31
    → length y.clients + 1 < 2 ^ 31
    → Reach (fresh server) y
    → over_limit server.config (accept conn w y).server.current_connection
      ≡ leb server.config.max_connections (length y.clients)
unfolding accept
Reach-over_limit server y conn w h few r =
    let k = Reach-Counted server.config.max_connections r (fresh-Counted server) in
    ground (arith, k.every_one)
