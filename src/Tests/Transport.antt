-- ===== src/Tests/Transport.antt =====
-- The theorem on src/net/net_transport.go at a concrete input.
use gource.Prelude.{ℕ, suc, ◌+◌, ◌≡◌, [], ◌∷◌, false, pos}
use gource.Common.Errors.{ok, err, message}
use gource.Node.Messages.{Command, sync_request}
use gource.Net.Transport.{Stream, NetworkTransport, generic_rpc}
use gource.Net.Transport.Pool.{pool_size, generic_rpc_lem}

-- Every request is written, and no answer can be decoded.
abbrev stream : Stream
stream = record {
  State = ℕ;
  Link = ℕ;
  dial = λ target n. (ok n, suc n);
  write_type = λ link args n. (ok tt, n);
  encode = λ link args n. (ok tt, n);
  flush = λ link n. (ok tt, n);
  decode_error = λ link n. (ok "", n);
  decode_response = λ link n. (err (message "EOF"), n);
  close = λ link n. n;
}

abbrev request : Command
request = sync_request (record { from_id = pos 1; known = [] })

-- One connection is pooled.
abbrev transport : NetworkTransport stream
transport = record {
  conn_pool = ("b:1", record { target = "b:1"; link = 0 } ∷ []) ∷ [];
  max_pool = pos 1;
  shutdown = false;
  wire = 1;
  dialed = 1;
  released = 0;
}

generic_rpc_lem_example :
    pool_size (generic_rpc "b:1" request transport).1.conn_pool
      + (generic_rpc "b:1" request transport).1.released
      + 1
    ≡ 1 + (generic_rpc "b:1" request transport).1.dialed
unfolding pool_size
generic_rpc_lem_example = generic_rpc_lem {stream = stream} "b:1" request transport
