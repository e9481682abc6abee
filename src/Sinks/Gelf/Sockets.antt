-- ===== src/Sinks/Gelf/Sockets.antt =====
-- The GELF sink (src/sinks/gelf_udp_sink.cpp) over the UDP client (src/net/socket.cpp).
use logspine.Prelude.{
  ℕ, ◌+◌, ◌≡◌, ◌⊎◌, inl, inr, refl, sym, ap, subst, ◌∙◌, true, false, Option, none, some, List, [],
  ◌∷◌, ◌++◌, map, append_assoc, append-nil, Bytes, codes, arith, Option-cases, Bool-cases,
}
use logspine.Net.{Os}
use logspine.Net.Udp.{UdpSocket, configured, udp_configure, udp_send}
use logspine.Net.Owned.{OpenLaws}
use logspine.Net.OwnedUdp.{UdpOwns, NamedAddresses, udp_configure-Owns, udp_send-Owns}
use logspine.Net.SendingUdp.{DatagramLaws, Sent1, udp_send_returns}
use logspine.Sinks.Retry.{NetworkSink, Ended, returned, threw, deliver_message}
use logspine.Sinks.Retry.Keeps.{deliver_message-Kept}
use logspine.Sinks.Tcp.Sockets.{result_or}
use logspine.Sinks.Gelf.Write.{
  UdpClient, GelfOptions, send_chunks, gelf_transport, gelf_payload, gelf_write,
}
use logspine.Sinks.Gelf.{split_payload}
use logspine.Event.{LogEvent}
use logspine.Dispatcher.{Filter, should_log}
use logspine.Json.{Platform}

-- `net::udp_client`, with fuel for every call that is interrupted.
abbrev pub udp_client : {S : Type 0} → Os S → (S → ℕ) → UdpClient (UdpSocket × S)
udp_client os interruptions = record {
  configure = udp_configure os;
  send = λ payload at. result_or at (udp_send os (interruptions at.1 + 1) payload at);
}

udp_send-unconfigured :
    {S : Type 0} (os : Os S) (fuel : ℕ) (payload : Bytes) (c : UdpSocket) (s : S)
    → configured c ≡ false
    → udp_send os fuel payload (c, s) ≡ some ((c, s), some (codes "udp socket is not configured"))
unfolding udp_send
udp_send-unconfigured os fuel payload c s down = ground arith

module _ {S : Type 0} (os : Os S) (sockets : S → List ℕ) (datagrams : S → List (Bytes × Bytes))
    (interruptions : S → ℕ) (open_laws : OpenLaws os sockets)
    (datagram_laws : DatagramLaws os datagrams interruptions) (named : NamedAddresses os)
    (others : List ℕ) where
  abbrev OwnsNow : UdpSocket × S → Type 0
  OwnsNow at = UdpOwns os sockets open_laws others at

  abbrev to_all : Bytes → List Bytes → List (Bytes × Bytes)
  to_all destination chunks = map (λ chunk. (destination, chunk)) chunks

  -- What sending leaves: the client has only its own socket, and without an exception all chunks
  -- are sent.
  abbrev Tried : List Bytes → UdpSocket × S → (UdpSocket × S) × Option Bytes → Type 0
  Tried chunks at r =
      (OwnsNow r.0)
      × (r.1 ≡ none
          → (r.0.0 ≡ at.0) × (datagrams r.0.1 ≡ datagrams at.1 ++ to_all at.0.destination chunks))

  sends_one :
      (payload : Bytes) (at : UdpSocket × S)
      → OwnsNow at
      → Tried (payload ∷ []) at ((udp_client os interruptions).send payload at)
  unfolding result_or
  sends_one payload (c, s) own = elim (Bool-cases (configured c)) [
    | inl up ↦
        let (r, ends, all) =
          udp_send_returns os datagrams interruptions datagram_laws payload c (interruptions s + 1)
            s up (omega arith) in
        subst (Tried (payload ∷ []) (c, s)) (sym (ap (result_or (c, s)) ends)) (
          udp_send-Owns os sockets open_laws others (interruptions s + 1) payload (c, s) own r ends,
          λ ok. complete r all ok,
        )
    | inr down ↦
        subst (Tried (payload ∷ []) (c, s)) (sym (ap (result_or (c, s)) (refused down)))
          (own, λ ok. absurd (cc))
  ]
    where
      complete :
          (r : (UdpSocket × S) × Option Bytes)
          → Sent1 datagrams payload c (datagrams s) r
          → r.1 ≡ none
          → (r.0.0 ≡ c) × (datagrams r.0.1 ≡ datagrams s ++ ((c.destination, payload) ∷ []))
      complete r (inl (ok, same, more)) none_thrown = (same, more)
      complete r (inr (thrown, down, kept)) none_thrown = absurd (cc)

      refused :
          configured c ≡ false
          → udp_send os (interruptions s + 1) payload (c, s)
            ≡ some ((c, s), some (codes "udp socket is not configured"))
      refused down = udp_send-unconfigured os (interruptions s + 1) payload c s down

  send_chunks-Tried :
      (chunks : List Bytes) (at : UdpSocket × S)
      → OwnsNow at
      → Tried chunks at (send_chunks (udp_client os interruptions) chunks at)
  unfolding send_chunks
  send_chunks-Tried [] at own = (own, λ ok. (refl, sym (append-nil (datagrams at.1))))
  send_chunks-Tried (chunk ∷ chunks) at own =
      let one = (udp_client os interruptions).send chunk at in
      let k : Tried (chunk ∷ []) at one = sends_one chunk at own in
      let rest : Tried chunks one.0 (send_chunks (udp_client os interruptions) chunks one.0) =
        send_chunks-Tried chunks one.0 k.0 in
      elim (Option-cases (one.1)) [
        | inr (w, e) ↦ subst (Tried (chunk ∷ chunks) at) (ground (arith, e)) (the_first one.0 w k.0)
        | inl e ↦
            subst (Tried (chunk ∷ chunks) at) (ground (arith, e))
              (joined one.0 (send_chunks (udp_client os interruptions) chunks one.0) (k.1 e) rest)
      ]
    where
      the_first :
          (after : UdpSocket × S) (w : Bytes)
          → OwnsNow after
          → Tried (chunk ∷ chunks) at (after, some w)
      the_first after w own = (own, λ ok. absurd (cc))

      joined :
          (after : UdpSocket × S) (r : (UdpSocket × S) × Option Bytes)
          → (after.0 ≡ at.0)
            × (datagrams after.1 ≡ datagrams at.1 ++ to_all at.0.destination (chunk ∷ []))
          → Tried chunks after r
          → Tried (chunk ∷ chunks) at r
      joined after r k rest = (
        rest.0,
        λ ok. (
          (rest.1 ok).0 ∙ k.0,
          (rest.1 ok).1
              ∙ ap (λ d. d ++ to_all after.0.destination chunks) k.1
              ∙ append_assoc (datagrams at.1) (to_all at.0.destination (chunk ∷ []))
                  (to_all after.0.destination chunks)
              ∙ ap
                  (λ (u : UdpSocket).
                    datagrams at.1 ++ ((at.0.destination, chunk) ∷ to_all u.destination chunks))
                  k.0,
        ),
      )

  -- The chunks are the last datagrams that the system has accepted, in their order, each for the
  -- client's destination.
  abbrev pub AllSent : List Bytes → UdpSocket × S → Type 0
  AllSent chunks at =
      (before : List (Bytes × Bytes)) × (datagrams at.1
        ≡ before ++ map (λ chunk. (at.0.destination, chunk)) chunks)

  -- `write` of the GELF sink, without a formatter, for an event that passes the filter, over
  -- system calls that keep OpenLaws and DatagramLaws and know no empty address, from a client that
  -- has no socket but its own open: so it is afterwards, though every retry resolves the
  -- destination anew. Either the call returned, and the datagrams of the event's payload are the
  -- last that the system has accepted, all and in order, or it threw. This is for a payload that
  -- `split_payload` splits, without a division by zero.
  pub gelf_write_delivers :
      (p : Platform) (show_seconds : ℕ → Bytes) (zlib : Bytes → Option Bytes)
      (options : GelfOptions) (filter : Option Filter) (message_id : ℕ) (event : LogEvent)
      (sink : NetworkSink (UdpSocket × S)) (chunks : List Bytes)
      → should_log filter event ≡ true
      → OwnsNow sink.client
      → split_payload options.max_chunk_size message_id
          (gelf_payload p show_seconds zlib options none event)
        ≡ some chunks
      → (out : NetworkSink (UdpSocket × S) × Ended × List ℕ) × (gelf_write
            (udp_client os interruptions)
            p
            show_seconds
            zlib
            options
            filter
            none
            message_id
            event
            sink
          ≡ some out)
        × (OwnsNow out.0.client)
        × (((out.1 ≡ returned) × AllSent chunks out.0.client) ⊎ ((w : Bytes) × (out.1 ≡ threw w)))
  unfolding gelf_write
  gelf_write_delivers p show_seconds zlib options filter message_id event sink chunks passes own
        split =
      let out =
        deliver_message (gelf_transport (udp_client os interruptions) options) options.retry chunks
          sink in
      let kept =
        deliver_message-Kept (gelf_transport (udp_client os interruptions) options) chunks OwnsNow
          (AllSent chunks) (λ at h. (send_chunks-Tried chunks at h).0)
          (λ at h.
            udp_configure-Owns os sockets open_laws others options.host options.port at named h)
          (λ at h e.
            all_sent at (send_chunks (udp_client os interruptions) chunks at)
              (send_chunks-Tried chunks at h) e)
          options.retry sink own in
      (out, ground (arith, passes, split), kept.0, kept.1)
    where
      all_sent :
          (at : UdpSocket × S) (r : (UdpSocket × S) × Option Bytes)
          → Tried chunks at r
          → r.1 ≡ none
          → AllSent chunks r.0
      all_sent at r tried e =
          let ok = tried.1 e in
          (
            datagrams at.1,
            ok.1 ∙ ap (λ (u : UdpSocket). datagrams at.1 ++ to_all u.destination chunks) (sym ok.0),
          )
