-- ===== src/Net/SmallOs.antt =====
-- A system on which the clients run.
use logspine.Prelude.{
  ℕ, zero, suc, ◌+◌, ◌<◌, ◌≤◌, ◌≡◌, ◌≢◌, refl, sym, ap, subst, All, ◌∙◌, true, Option, none, some,
  List, [], ◌∷◌, ◌++◌, Bytes, codes, length, take, take-min, min, assign, assign_self, arith,
}
use logspine.Net.{AddrInfo, Os, Sent, sent, interrupted, failed}
use logspine.Net.Owned.{OpenLaws}
use logspine.Net.OwnedUdp.{NamedAddresses}
use logspine.Net.Sending.{StreamLaws}
use logspine.Net.SendingUdp.{DatagramLaws}

-- Its open sockets, the next one, what it accepted, and the signals that will interrupt it.
pub record Sys : Type 0 where
  pub handles : List ℕ
  pub fresh : ℕ
  pub got : ℕ → Bytes
  pub grams : List (Bytes × Bytes)
  pub signals : ℕ

abbrev pub closed_last : List ℕ → List ℕ
closed_last [] = []
closed_last (h ∷ rest) = rest

-- Two bytes at a time.
abbrev pub send_two : ℕ → Bytes → Sys → ℕ → Sys × Sent
send_two h b s zero =
    (record s { got = assign s.got h (s.got h ++ take 2 b) }, sent (min 2 (length b)))
send_two h b s (suc k) = (record s { signals = k }, interrupted)

abbrev pub send_some : Option ℕ → Bytes → Sys → Sys × Sent
send_some none b s = (s, failed)
send_some (some h) b s = send_two h b s s.signals

abbrev pub send_gram : Bytes → Bytes → Sys → ℕ → Sys × Sent
send_gram b a s zero = (record s { grams = s.grams ++ ((a, b) ∷ []) }, sent (length b))
send_gram b a s (suc k) = (record s { signals = k }, interrupted)

abbrev pub localhost : AddrInfo
localhost = record { family = 2; socktype = 1; protocol = 6; addr = codes "127.0.0.1" }

abbrev pub small_os : Os Sys
small_os = record {
  getaddrinfo = λ host service t s. (s, some (localhost ∷ []));
  freeaddrinfo = λ l s. s;
  socket =
      λ f t p s. (record s { handles = s.fresh ∷ s.handles; fresh = s.fresh + 1 }, some s.fresh);
  setsockopt = λ h seconds micros s. s;
  connect = λ h a s. (s, true);
  send = send_some;
  sendto = λ h b a s. send_gram b a s s.signals;
  close = λ h s. record s { handles = closed_last s.handles };
}

abbrev pub handles_of : Sys → List ℕ
handles_of s = s.handles

pub small_OpenLaws : OpenLaws small_os handles_of
small_OpenLaws = record {
  socket_none = λ f t p s e. absurd (cc);
  socket_some = λ f t p s h e. ap (λ n. n ∷ s.handles) (same s.fresh h e);
  close_last = λ h rest s e. ap closed_last e;
  getaddrinfo_keeps = λ host service t s. refl;
  freeaddrinfo_keeps = λ l s. refl;
  setsockopt_keeps = λ h seconds micros s. refl;
  connect_keeps = λ h a s. refl;
  send_keeps = λ h b s. send_keeps h b s s.signals refl;
  sendto_keeps = λ h b a s. sendto_keeps b a s s.signals;
}
  where
    same : (a b : ℕ) → some a ≡ some b → a ≡ b
    same a b e = cc

    two_keeps : (h : ℕ) (b : Bytes) (s : Sys) (k : ℕ) → (send_two h b s k).0.handles ≡ s.handles
    two_keeps h b s zero = refl
    two_keeps h b s (suc k) = refl

    send_keeps :
        (h : Option ℕ) (b : Bytes) (s : Sys) (k : ℕ)
        → s.signals ≡ k
        → (send_some h b s).0.handles ≡ s.handles
    send_keeps none b s k e = refl
    send_keeps (some h) b s k e = two_keeps h b s s.signals

    sendto_keeps : (b a : Bytes) (s : Sys) (k : ℕ) → (send_gram b a s k).0.handles ≡ s.handles
    sendto_keeps b a s zero = refl
    sendto_keeps b a s (suc k) = refl

abbrev pub got_of : Sys → ℕ → Bytes
got_of s = s.got

abbrev pub signals_of : Sys → ℕ
signals_of s = s.signals

abbrev pub grams_of : Sys → List (Bytes × Bytes)
grams_of s = s.grams

pub small_StreamLaws : StreamLaws small_os got_of signals_of
small_StreamLaws = record {
  send_sent = λ h n b s e. two_sent h n b s s.signals refl e;
  send_interrupted = λ h b s e. two_interrupted h b s s.signals refl e;
  send_failed = λ h b s e. two_failed h b s s.signals e;
  close_keeps = λ h s. refl;
}
  where
    count : Sent → ℕ
    count (sent n) = n
    count interrupted = 0
    count failed = 0

    two_sent :
        (h n : ℕ) (b : Bytes) (s : Sys) (k : ℕ)
        → s.signals ≡ k
        → (send_two h b s k).1 ≡ sent n
        → (n ≤ length b)
          × ((send_two h b s k).0.got h ≡ s.got h ++ take n b)
          × ((send_two h b s k).0.signals ≤ s.signals)
    two_sent h n b s zero z e = (
      omega (arith, ap count (sym e)),
      assign_self s.got h (s.got h ++ take 2 b) h refl
          ∙ ap (λ c. s.got h ++ c) (sym (take-min 2 b) ∙ ap (λ m. take m b) (ap count e)),
      omega arith,
    )
    two_sent h n b s (suc k) z e = absurd (cc)

    two_interrupted :
        (h : ℕ) (b : Bytes) (s : Sys) (k : ℕ)
        → s.signals ≡ k
        → (send_two h b s k).1 ≡ interrupted
        → ((send_two h b s k).0.got h ≡ s.got h) × ((send_two h b s k).0.signals < s.signals)
    two_interrupted h b s zero z e = absurd (cc)
    two_interrupted h b s (suc k) z e = (refl, omega arith)

    two_failed :
        (h : ℕ) (b : Bytes) (s : Sys) (k : ℕ)
        → (send_two h b s k).1 ≡ failed
        → (send_two h b s k).0.got h ≡ s.got h
    two_failed h b s zero e = absurd (cc)
    two_failed h b s (suc k) e = absurd (cc)

pub small_DatagramLaws : DatagramLaws small_os grams_of signals_of
small_DatagramLaws = record {
  sendto_sent = λ h n b a s e. gram_sent n b a s s.signals e;
  sendto_interrupted = λ h b a s e. gram_interrupted b a s s.signals refl e;
  sendto_failed = λ h b a s e. gram_failed b a s s.signals e;
  close_keeps = λ h s. refl;
}
  where
    gram_sent :
        (n : ℕ) (b a : Bytes) (s : Sys) (k : ℕ)
        → (send_gram b a s k).1 ≡ sent n
        → (send_gram b a s k).0.grams ≡ s.grams ++ ((a, b) ∷ [])
    gram_sent n b a s zero e = refl
    gram_sent n b a s (suc k) e = absurd (cc)

    gram_interrupted :
        (b a : Bytes) (s : Sys) (k : ℕ)
        → s.signals ≡ k
        → (send_gram b a s k).1 ≡ interrupted
        → ((send_gram b a s k).0.grams ≡ s.grams) × ((send_gram b a s k).0.signals < s.signals)
    gram_interrupted b a s zero z e = absurd (cc)
    gram_interrupted b a s (suc k) z e = (refl, omega arith)

    gram_failed :
        (b a : Bytes) (s : Sys) (k : ℕ)
        → (send_gram b a s k).1 ≡ failed
        → (send_gram b a s k).0.grams ≡ s.grams
    gram_failed b a s zero e = absurd (cc)
    gram_failed b a s (suc k) e = absurd (cc)

pub small_NamedAddresses : NamedAddresses small_os
small_NamedAddresses host service s l e =
    subst (λ found. All (λ a. a.addr ≢ []) found) (the_list l e) ((λ empty. absurd (cc)), tt)
  where
    the_list : (l : List AddrInfo) → some (localhost ∷ []) ≡ some l → localhost ∷ [] ≡ l
    the_list l e = cc

-- No socket is open, and two signals will come.
abbrev pub booted : Sys
booted = record { handles = []; fresh = 3; got = λ h. []; grams = []; signals = 2 }
