-- ===== src/Sinks/Tcp/Sockets.antt =====
-- The TCP sink (src/sinks/tcp_json_lines_sink.cpp) over the TCP client (src/net/socket.cpp).
use logspine.Prelude.{
  ℕ, ◌+◌, ◌≡◌, ◌⊎◌, inl, inr, refl, sym, ap, subst, true, Option, none, some, List, [], ◌++◌, Bytes,
  length, arith, Option-cases, Bool-cases,
}
use logspine.Event.{LogEvent}
use logspine.Dispatcher.{Filter, should_log}
use logspine.Json.{Platform, to_json_lines_record}
use logspine.Net.{Os, Outcome-cases, connect_tcp_socket}
use logspine.Net.Tcp.{TcpSocket, tcp_close, tcp_connect, send_all}
use logspine.Net.Owned.{OpenLaws}
use logspine.Net.OwnedTcp.{TcpOwns, tcp_close-Owns, tcp_connect-Owns, send_all-Owns}
use logspine.Net.Sending.{StreamLaws, AllSent, send_all_returns}
use logspine.Sinks.Retry.{RetryOptions, NetworkSink, Ended, returned, threw, deliver_message}
use logspine.Sinks.Retry
use logspine.Sinks.Retry.Keeps.{deliver_message-Kept}
use logspine.Sinks.Tcp.{TcpClient, Peer, ensure_connected, send_connected, tcp_transport, tcp_write}

-- The result of a call, and where its fuel has run out the state before it.
unfoldable pub result_or : {C : Type 0} → C → Option (C × Option Bytes) → C × Option Bytes
result_or at (some r) = r
result_or at none = (at, some [])

module _ {S : Type 0} (os : Os S) (interruptions : S → ℕ) where
  -- `net::tcp_client`, with fuel for every byte of a payload and every call that is interrupted.
  unfoldable pub enough_fuel : Bytes → TcpSocket × S → ℕ
  enough_fuel payload at = length payload + interruptions at.1 + 1

  abbrev pub tcp_client : TcpClient (TcpSocket × S)
  tcp_client = record {
    connect = tcp_connect os;
    send_all = λ payload at. result_or at (send_all os (enough_fuel payload at) payload at);
    connected = λ at. at.0.connected;
    close = tcp_close os;
  }

module _ {S : Type 0} (os : Os S) (sockets : S → List ℕ) (received : S → ℕ → Bytes)
    (interruptions : S → ℕ) (open_laws : OpenLaws os sockets)
    (stream_laws : StreamLaws os received interruptions) (others : List ℕ) where
  -- The payload is the last that the system has accepted on the socket of the client, which is open.
  abbrev pub Delivered : Bytes → TcpSocket × S → Type 0
  Delivered payload at =
      (at.0.connected ≡ true)
      × ((h : ℕ) × (before : Bytes) × (at.0.socket_handle ≡ some h)
          × (received at.1 h ≡ before ++ payload))

  abbrev OwnsNow : TcpSocket × S → Type 0
  OwnsNow at = TcpOwns os sockets open_laws others at

  sends :
      (payload : Bytes) (at : TcpSocket × S)
      → OwnsNow at
      → at.0.connected ≡ true
      → (r : (TcpSocket × S) × Option Bytes) × ((tcp_client os interruptions).send_all payload at
          ≡ r)
        × (OwnsNow r.0)
        × (r.1 ≡ none → Delivered payload r.0)
  unfolding result_or enough_fuel
  sends payload (c, s) (inr (down, o)) up = absurd (cc)
  sends payload (c, s) (inl (e, o, k)) up = elim (Option-cases (c.socket_handle)) [
    | inl f ↦ absurd (k f)
    | inr (h, f) ↦
        let (r, returns, all) =
          send_all_returns os received interruptions stream_laws payload h (received s h)
            (enough_fuel os interruptions payload (c, s)) s (omega arith) refl in
        let same : c ≡ record { socket_handle = some h; connected = true } =
          λ i. record { socket_handle = f i; connected = e i } in
        let ends : send_all os (enough_fuel os interruptions payload (c, s)) payload (c, s)
            ≡ some r =
          subst
            (λ d. send_all os (enough_fuel os interruptions payload (c, s)) payload (d, s) ≡ some r)
            (sym same) returns in
        (
          r,
          ap (result_or (c, s)) ends,
          send_all-Owns os sockets open_laws others (enough_fuel os interruptions payload (c, s))
              payload (c, s) (inl (e, o, k)) r ends,
          λ ok. delivered r h s all ok,
        )
  ]
    where
      delivered :
          (r : (TcpSocket × S) × Option Bytes) (h : ℕ) (s : S)
          → AllSent received h
              (received s h)
              payload
              (record { socket_handle = some h; connected = true })
              r
          → r.1 ≡ none
          → Delivered payload r.0
      delivered r h s (inl (ok, kept, got)) none_thrown =
          (ap (λ c. c.connected) kept, (h, received s h, ap (λ c. c.socket_handle) kept, got))
      delivered r h s (inr (thrown, down, rest)) none_thrown = absurd (cc)

  -- `connect` without an exception leaves the client connected.
  connects :
      (host : Bytes) (port : ℕ) (at : TcpSocket × S)
      → (tcp_connect os host port at).1 ≡ none
      → (tcp_connect os host port at).0.0.connected ≡ true
  unfolding tcp_connect
  connects host port at e =
      elim (Outcome-cases ((connect_tcp_socket os host port (tcp_close os at).1).1)) [
        | inl (n, f) ↦ ground (arith, f)
        | inr (w, f) ↦ ground (arith, f)
      ]

  module _ (peer : Peer) (payload : Bytes) where
    ensured :
        (at : TcpSocket × S)
        → OwnsNow at
        → (OwnsNow (ensure_connected (tcp_client os interruptions) peer at).0)
          × ((ensure_connected (tcp_client os interruptions) peer at).1 ≡ none
              → (ensure_connected (tcp_client os interruptions) peer at).0.0.connected ≡ true)
    unfolding ensure_connected
    ensured at own = elim (Bool-cases (at.0.connected)) [
      | inl up ↦ ground (arith, up, own)
      | inr down ↦ ground (
        arith,
        down,
        tcp_connect-Owns os sockets open_laws others peer.host peer.port at own,
        connects peer.host peer.port at,
      )
    ]

    -- What an attempt leaves.
    abbrev Tried : (TcpSocket × S) × Option Bytes → Type 0
    Tried r = (OwnsNow r.0) × (r.1 ≡ none → Delivered payload r.0)

    tries :
        (at : TcpSocket × S)
        → OwnsNow at
        → Tried (send_connected (tcp_client os interruptions) peer payload at)
    unfolding send_connected
    tries at own =
        let on = ensure_connected (tcp_client os interruptions) peer at in
        let k = ensured at own in
        elim (Option-cases (on.1)) [
          | inr (w, e) ↦ subst Tried (sym (refused w e)) (k.0, λ ok. absurd (cc))
          | inl e ↦
              let (r, is, keeps, ok) = sends payload on.0 k.0 (k.1 e) in
              subst Tried (sym (connected r e is)) (keeps, ok)
        ]
      where
        refused :
            (w : Bytes)
            → (ensure_connected (tcp_client os interruptions) peer at).1 ≡ some w
            → send_connected (tcp_client os interruptions) peer payload at
              ≡ ((ensure_connected (tcp_client os interruptions) peer at).0, some w)
        refused w e = ground (arith, e)

        connected :
            (r : (TcpSocket × S) × Option Bytes)
            → (ensure_connected (tcp_client os interruptions) peer at).1 ≡ none
            → (tcp_client os interruptions).send_all payload
                (ensure_connected (tcp_client os interruptions) peer at).0
              ≡ r
            → send_connected (tcp_client os interruptions) peer payload at ≡ r
        connected r e is = ground (arith, e, is)

    -- The delivery loop of the sink over sockets, with every retry: the client has no socket but its
    -- own open afterwards, and if the call returned, the payload is delivered.
    pub deliver_message_sockets :
        (options : RetryOptions) (sink : NetworkSink (TcpSocket × S))
        → OwnsNow sink.client
        → let out =
            deliver_message
              (tcp_transport (tcp_client os interruptions) peer)
              options
              payload
              sink in
          (OwnsNow out.0.client)
          × (((out.1 ≡ returned) × Delivered payload out.0.client)
              ⊎ ((w : Bytes) × (out.1 ≡ threw w)))
    deliver_message_sockets options sink own =
        deliver_message-Kept (tcp_transport (tcp_client os interruptions) peer) payload OwnsNow
          (Delivered payload) (λ at h. (tries at h).0) (λ at h. tcp_close-OwnsNow at h)
          (λ at h e. (tries at h).1 e) options sink own
      where
        tcp_close-OwnsNow : (at : TcpSocket × S) → OwnsNow at → OwnsNow (tcp_close os at)
        tcp_close-OwnsNow at h = inr (tcp_close-Owns os sockets open_laws others at h)

  -- `write` of the TCP sink, without a formatter, for an event that passes the filter, over system
  -- calls that keep OpenLaws and StreamLaws, from a client that has no socket but its own open: so
  -- it is afterwards, however many sockets the retries opened. Either the call returned, and the
  -- event's whole JSON line is the last that the system has accepted on the open socket of the
  -- client, or it threw.
  pub tcp_write_delivers :
      (peer : Peer) (p : Platform) (options : RetryOptions) (filter : Option Filter)
      (event : LogEvent) (sink : NetworkSink (TcpSocket × S))
      → should_log filter event ≡ true
      → OwnsNow sink.client
      → let out = tcp_write (tcp_client os interruptions) peer p options filter none event sink in
        (OwnsNow out.0.client)
        × (((out.1 ≡ returned) × Delivered (to_json_lines_record p event) out.0.client)
            ⊎ ((w : Bytes) × (out.1 ≡ threw w)))
  unfolding Retry.write
  tcp_write_delivers peer p options filter event sink passes own =
      ground (
        arith,
        passes,
        deliver_message_sockets peer (to_json_lines_record p event) options sink own,
      )
