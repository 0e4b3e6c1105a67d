-- ===== src/Net/Transport.antt =====
-- src/net/net_transport.go: the pool of connections, and a request over one of them. The stream layer with
-- its buffers and the JSON encoding are parameters; deadlines are left out.
pub mod Pool
use gource.Prelude.{
  ℕ, suc, ◌+◌, ◌-◌, String, Bool, true, false, not, ◌&&◌, List, [], ◌∷◌, ◌++◌, Option, none, some,
  ℤ, pos, ltb_ℤ, Map, lookup, insert, string_eq, length, take, last?, ◌==◌, if◌then◌else◌,
}
use gource.Common.Errors.{Error, Result, ok, err, message}
use gource.Common.Exec.{Exec, pure, raise, lift, modify, attempt, on, ◌>>=◌, ◌>>◌}
use gource.Node.Messages.{Command, Response}

-- What `StreamLayer`, the buffers and the coders do: a request is its type, its body and a flush.
pub record Stream : Type 1 where
  pub State : Type 0
  pub Link : Type 0
  pub dial : String → Exec State Link
  pub write_type : Link → Command → Exec State Unit
  pub encode : Link → Command → Exec State Unit
  pub flush : Link → Exec State Unit
  pub decode_error : Link → Exec State String
  pub decode_response : Link → Exec State Response
  pub close : Link → State → State

module _ (stream : Stream) where
  pub record NetConn : Type 0 where
    pub target : String
    pub link : stream.Link

  -- `dialed` and `released` count the connections that were opened and closed.
  pub record NetworkTransport : Type 0 where
    pub conn_pool : Map String (List NetConn)
    pub max_pool : ℤ
    pub shutdown : Bool
    pub wire : stream.State
    pub dialed : ℕ
    pub released : ℕ

module _ {stream : Stream} where
  unfoldable pub new_network_transport : ℤ → stream.State → NetworkTransport stream
  new_network_transport max_pool wire = record {
    conn_pool = [];
    max_pool = max_pool;
    shutdown = false;
    wire = wire;
    dialed = 0;
    released = 0;
  }

  unfoldable pub close : NetworkTransport stream → NetworkTransport stream
  close n = record n { shutdown = true }

  unfoldable pub on_wire : {A : Type 0} → Exec stream.State A → Exec (NetworkTransport stream) A
  unfolding on
  on_wire m = on (λ n. n.wire) (λ w n. record n { wire = w }) m

  unfoldable pub release : NetConn stream → NetworkTransport stream → NetworkTransport stream
  release conn n = record n { wire = stream.close conn.link n.wire; released = suc n.released }

  -- `connPool[target]`, which is empty for a target that is not there.
  unfoldable pub pooled : String → NetworkTransport stream → List (NetConn stream)
  pooled target n = elim (lookup target n.conn_pool) [ none ↦ [] | some conns ↦ conns ]

  -- The last connection of the pool.
  unfoldable pub get_pooled_conn :
      String → NetworkTransport stream → Option (NetConn stream) × NetworkTransport stream
  get_pooled_conn target n =
      let conns = pooled target n in
      elim (last? conns) [
        | none ↦ (none, n)
        | some conn ↦ (
          some conn,
          record n { conn_pool = insert target (take (length conns - 1) conns) n.conn_pool },
        )
      ]

  unfoldable pub dial : String → Exec (NetworkTransport stream) (NetConn stream)
  dial target = do
    link ← on_wire (stream.dial target)
    modify (λ n. record n { dialed = suc n.dialed })
    pure (record { target = target; link = link })

  unfoldable pub get_conn : String → Exec (NetworkTransport stream) (NetConn stream)
  get_conn target n =
      let (found, n') = get_pooled_conn target n in
      elim found [ some conn ↦ (ok conn, n') | none ↦ dial target n' ]

  unfoldable pub return_conn : NetConn stream → NetworkTransport stream → NetworkTransport stream
  return_conn conn n =
      let conns = pooled conn.target n in
      if not n.shutdown && ltb_ℤ (pos (length conns)) n.max_pool
      then record n { conn_pool = insert conn.target (conns ++ conn ∷ []) n.conn_pool }
      else release conn n

  -- A step on the connection, which is closed where the step fails.
  unfoldable pub or_release :
      {A : Type 0} → NetConn stream → Exec stream.State A → Exec (NetworkTransport stream) A
  or_release conn m =
      attempt (on_wire m)
        λ res. elim res [ ok a ↦ pure a | err e ↦ (do modify (release conn); raise e) ]

  unfoldable pub send_rpc : NetConn stream → Command → Exec (NetworkTransport stream) Unit
  send_rpc conn args = do
    or_release conn (stream.write_type conn.link args)
    or_release conn (stream.encode conn.link args)
    or_release conn (stream.flush conn.link)

  -- The result where the connection can be reused: the response, or the error that came before it.
  unfoldable pub decode_response : NetConn stream → Exec (NetworkTransport stream) (Result Response)
  decode_response conn = do
    rpc_error ← or_release conn (stream.decode_error conn.link)
    resp ← or_release conn (stream.decode_response conn.link)
    pure (if rpc_error == "" then ok resp else err (message rpc_error))

  unfoldable pub generic_rpc : String → Command → Exec (NetworkTransport stream) Response
  generic_rpc target args = do
    conn ← get_conn target
    send_rpc conn args
    r ← decode_response conn
    modify (return_conn conn)
    lift r
