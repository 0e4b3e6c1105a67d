-- ===== src/Net/Transport/Pool.antt =====
-- The connections of a transport: none is lost.
use gource.Prelude.{
  ℕ, zero, suc, ◌≤◌, ◌+◌, ◌-◌, ◌≡◌, refl, ap, String, Bool, true, false, not, ◌&&◌, List, [], ◌∷◌,
  ◌++◌, none, some, pos, ltb_ℤ, Map, lookup, insert, string_eq, length, length-append, take, last?,
  Option-cases, inl, inr, if◌then◌else◌, arith,
}
use gource.Common.Errors.{Result, ok, err}
use gource.Common.Exec
use gource.Common.Exec.{Exec, pure, raise, lift, modify, attempt, on, ◌>>=◌, ◌>>◌}
use gource.Node.Messages.{Command, Response}
use gource.Net.Transport.{
  Stream, NetConn, NetworkTransport, on_wire, release, pooled, get_pooled_conn, dial, get_conn,
  return_conn, or_release, send_rpc, decode_response, generic_rpc,
}

-- How many connections are pooled.
unfoldable pub pool_size : {A : Type 0} → Map String (List A) → ℕ
pool_size [] = 0
pool_size ((k, v) ∷ m) = length v + pool_size m

at : {A : Type 0} → String → Map String (List A) → List A
at k m = elim (lookup k m) [ none ↦ [] | some conns ↦ conns ]

pool_size-insert :
    {A : Type 0} (k : String) (v : List A) (m : Map String (List A))
    → pool_size (insert k v m) + length (at k m) ≡ pool_size m + length v
unfolding pool_size at lookup insert
pool_size-insert k v [] = omega arith
pool_size-insert k v ((j, w) ∷ m) = ground (arith, pool_size-insert k v m)

length-take : {A : Type 0} (n : ℕ) (l : List A) → n ≤ length l → length (take n l) ≡ n
length-take zero l h = refl
length-take (suc n) [] h = absurd (omega arith)
length-take (suc n) (x ∷ l) h = ap suc (length-take n l (omega arith))

take_less :
    {A : Type 0} (l : List A) (a : A)
    → last? l ≡ some a
    → length (take (length l - 1) l) + 1 ≡ length l
take_less [] a h = absurd (ground arith)
take_less (x ∷ l) a h =
    let shorter = length-take (length (x ∷ l) - 1) (x ∷ l) (omega arith) in omega (arith, shorter)

in_hand : {A : Type 0} → Result A → ℕ
in_hand (ok a) = 1
in_hand (err e) = 0

module _ {stream : Stream} where
  -- With `k` connections in hand at `t` and `j` of them at `s`, every connection that was opened in between
  -- is accounted for.
  record Balance (k j : ℕ) (s t : NetworkTransport stream) : Type 0 where
    even :
        pool_size t.conn_pool + t.released + k + s.dialed
        ≡ pool_size s.conn_pool + s.released + j + t.dialed

  chain :
      (j k l : ℕ) (s t u : NetworkTransport stream)
      → Balance k j s t
      → Balance l k t u
      → Balance l j s u
  chain j k l s t u h g = record { even = omega (arith, h.even, g.even) }

  record Holds {A : Type 0} (m : Exec (NetworkTransport stream) A) : Type 0 where
    at_all : (s : NetworkTransport stream) → Balance (in_hand (m s).0) 1 s (m s).1

  bind-Holds :
      {A B : Type 0} (m : Exec (NetworkTransport stream) A)
      (f : A → Exec (NetworkTransport stream) B)
      → Holds m
      → ((a : A) → Holds (f a))
      → Holds (m >>= f)
  unfolding ◌>>=◌ in_hand
  bind-Holds {A} {B} m f h k = record { at_all = λ s. go s (m s).0 (m s).1 (h.at_all s) }
    where
      go :
          (s : NetworkTransport stream) (r : Result A) (t : NetworkTransport stream)
          → Balance (in_hand r) 1 s t
          → Balance (in_hand (Exec.resume r f t).0) 1 s (Exec.resume r f t).1
      go s (ok a) t b = chain 1 1 _ s t _ b ((k a).at_all t)
      go s (err e) t b = b

  or_release-Holds :
      {A : Type 0} (conn : NetConn stream) (m : Exec stream.State A) → Holds (or_release conn m)
  unfolding or_release attempt on_wire on pure modify raise release ◌>>=◌ in_hand
  or_release-Holds {A} conn m = record { at_all = λ s. go s (m s.wire).0 (m s.wire).1 }
    where
      go :
          (s : NetworkTransport stream) (r : Result A) (w : stream.State)
          → Balance
              (in_hand
                ((elim r as (λ _. Exec (NetworkTransport stream) A) [
                  | ok a ↦ pure a
                  | err e ↦ (modify (release conn) >> raise e)
                ])
                  (record s { wire = w })).0)
              1
              s
              ((elim r as (λ _. Exec (NetworkTransport stream) A) [
                | ok a ↦ pure a
                | err e ↦ (modify (release conn) >> raise e)
              ])
                (record s { wire = w })).1
      go s (ok a) w = record { even = refl }
      go s (err e) w = record { even = omega arith }

  pure-Holds : {A : Type 0} (a : A) → Holds (pure a)
  unfolding pure in_hand
  pure-Holds a = record { at_all = λ s. record { even = refl } }

  send_rpc-Holds : (conn : NetConn stream) (args : Command) → Holds (send_rpc conn args)
  unfolding send_rpc
  send_rpc-Holds conn args =
      bind-Holds _ _ (or_release-Holds conn _)
        (λ _. bind-Holds _ _ (or_release-Holds conn _) (λ _. or_release-Holds conn _))

  decode_response-Holds : (conn : NetConn stream) → Holds (decode_response conn)
  unfolding decode_response
  decode_response-Holds conn =
      bind-Holds _ _ (or_release-Holds conn _)
        (λ _. bind-Holds _ _ (or_release-Holds conn _) (λ _. pure-Holds _))

  returned :
      (conn : NetConn stream) (s : NetworkTransport stream) (room : Bool)
      → Balance 0 1 s (
          if room
          then record s {
            conn_pool = insert conn.target (pooled conn.target s ++ conn ∷ []) s.conn_pool;
          }
          else release conn s)
  unfolding release pooled at
  returned conn s true = record {
    even = omega (
      arith,
      pool_size-insert conn.target (pooled conn.target s ++ conn ∷ []) s.conn_pool,
      length-append (pooled conn.target s) (conn ∷ []),
    );
  }
  returned conn s false = record { even = omega arith }

  return_conn-Balance :
      (conn : NetConn stream) (s : NetworkTransport stream) → Balance 0 1 s (return_conn conn s)
  unfolding return_conn
  return_conn-Balance conn s =
      returned conn s (not s.shutdown && ltb_ℤ (pos (length (pooled conn.target s))) s.max_pool)

  dial-Balance :
      (target : String) (s : NetworkTransport stream)
      → Balance (in_hand (dial target s).0) 0 s (dial target s).1
  unfolding dial on_wire on modify pure ◌>>=◌ in_hand
  dial-Balance target s = go (stream.dial target s.wire).0 (stream.dial target s.wire).1
    where
      opened : stream.Link → Exec (NetworkTransport stream) (NetConn stream)
      opened link = modify (λ n. record n { dialed = suc n.dialed }) >>= λ _.
          pure (record { target = target; link = link })

      go :
          (r : Result stream.Link) (w : stream.State)
          → Balance
              (in_hand (Exec.resume r opened (record s { wire = w })).0)
              0
              s
              (Exec.resume r opened (record s { wire = w })).1
      go (ok link) w = record { even = omega arith }
      go (err e) w = record { even = refl }

  pooled_conn :
      (target : String) (s : NetworkTransport stream) (conn : NetConn stream)
      → last? (pooled target s) ≡ some conn
      → Balance 1 0 s (record s {
        conn_pool =
            insert target (take (length (pooled target s) - 1) (pooled target s)) s.conn_pool;
      })
  unfolding pooled at
  pooled_conn target s conn there = record {
    even = omega (
      arith,
      pool_size-insert target (take (length (pooled target s) - 1) (pooled target s)) s.conn_pool,
      take_less (pooled target s) conn there,
    );
  }

  get_conn-dial :
      (target : String) (s : NetworkTransport stream)
      → last? (pooled target s) ≡ none
      → get_conn target s ≡ dial target s
  unfolding get_conn get_pooled_conn
  get_conn-dial target s h = rw (h, get_conn, get_pooled_conn) (rw (h, get_pooled_conn) refl)

  get_conn-pooled :
      (target : String) (s : NetworkTransport stream) (conn : NetConn stream)
      → last? (pooled target s) ≡ some conn
      → get_conn target s ≡ (
        ok conn,
        record s {
          conn_pool =
              insert target (take (length (pooled target s) - 1) (pooled target s)) s.conn_pool;
        },
      )
  unfolding get_conn get_pooled_conn
  get_conn-pooled target s conn h = rw (h, get_conn, get_pooled_conn) (rw (h, get_pooled_conn) refl)

  get_conn-Balance :
      (target : String) (s : NetworkTransport stream)
      → Balance (in_hand (get_conn target s).0) 0 s (get_conn target s).1
  unfolding in_hand
  get_conn-Balance target s = elim (Option-cases (last? (pooled target s))) [
    | inl none_left ↦ rw (get_conn-dial target s none_left) (dial-Balance target s)
    | inr (conn, there) ↦ rw (get_conn-pooled target s conn there) (pooled_conn target s conn there)
  ]

  -- An action that leaves no connection in hand.
  record Settles {A : Type 0} (m : Exec (NetworkTransport stream) A) : Type 0 where
    settled : (s : NetworkTransport stream) → Balance 0 1 s (m s).1

  bind-Settles :
      {A B : Type 0} (m : Exec (NetworkTransport stream) A)
      (f : A → Exec (NetworkTransport stream) B)
      → Holds m
      → ((a : A) → Settles (f a))
      → Settles (m >>= f)
  unfolding ◌>>=◌ in_hand
  bind-Settles {A} m f h k = record { settled = λ s. go s (m s).0 (m s).1 (h.at_all s) }
    where
      go :
          (s : NetworkTransport stream) (r : Result A) (t : NetworkTransport stream)
          → Balance (in_hand r) 1 s t
          → Balance 0 1 s (Exec.resume r f t).1
      go s (ok a) t b = chain 1 1 0 s t _ b ((k a).settled t)
      go s (err e) t b = b

  returned-Settles :
      (conn : NetConn stream) (r : Result Response) → Settles (modify (return_conn conn) >> lift r)
  unfolding ◌>>=◌ modify lift
  returned-Settles conn r = record { settled = return_conn-Balance conn }

  -- What `genericRPC` does with a connection.
  used : Command → NetConn stream → Exec (NetworkTransport stream) Response
  used args conn = send_rpc conn args >>= λ _.
      decode_response conn >>= λ r. modify (return_conn conn) >>= λ _. lift r

  used-Settles : (args : Command) (conn : NetConn stream) → Settles (used args conn)
  unfolding used
  used-Settles args conn =
      bind-Settles _ _ (send_rpc-Holds conn args)
        (λ _. bind-Settles _ _ (decode_response-Holds conn) (λ r. returned-Settles conn r))

  -- A request, whether it succeeds or ends in an error, loses no connection: of those that were opened for it
  -- or were in the pool, each one is pooled or has been closed in the end, and is counted once.
  pub generic_rpc_lem :
      (target : String) (args : Command) (s : NetworkTransport stream)
      → pool_size (generic_rpc target args s).1.conn_pool
          + (generic_rpc target args s).1.released
          + s.dialed
        ≡ pool_size s.conn_pool + s.released + (generic_rpc target args s).1.dialed
  unfolding generic_rpc ◌>>=◌ used in_hand
  generic_rpc_lem target args s =
      go (get_conn target s).0 (get_conn target s).1 (get_conn-Balance target s)
    where
      go :
          (r : Result (NetConn stream)) (t : NetworkTransport stream)
          → Balance (in_hand r) 0 s t
          → pool_size (Exec.resume r (used args) t).1.conn_pool
              + (Exec.resume r (used args) t).1.released
              + s.dialed
            ≡ pool_size s.conn_pool + s.released + (Exec.resume r (used args) t).1.dialed
      go (ok conn) t b =
          omega (arith, (chain 0 1 0 s t _ b ((used-Settles args conn).settled t)).even)
      go (err e) t b = omega (arith, b.even)
