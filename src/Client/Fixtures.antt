-- ===== src/Client/Fixtures.antt =====
-- A concrete package for the witnesses of client/diag_tool.py: a method sends its request, and
-- takes a response that it cannot read for a negative one.
use vecu_uds.Base.{
  get_or, ◌+◌, ◌*◌, false, ◌≢◌, ◌<◌, ◌%◌, ◌^◌, ◌/◌, ◌==◌, if◌then◌else◌, List, Option, ℕ, ◌≡◌, refl,
  arith, [], ◌∷◌, some, none,
}
use vecu_uds.Client.{
  Result, DidCodec, Udsoncan, Method, ok, raised, negative_response, timed_out, uncaught,
}
use vecu_uds.Uds.Reply.{Outcome, reply, suppressed, dropped}
use vecu_uds.Client.Documented.{
  after_mask, exactly, stripped, decoded, void, Documented, Sends, Wire,
}
use vecu_uds.Client.Codecs.{decode_ascii, from_bytes, encode_ascii}
use vecu_uds.Client.WriteName.{decode-ascii}

abbrev result_of : {A : Type 0} → Option A → Result A
result_of none = raised negative_response
result_of (some a) = ok a

abbrev read_by : {A : Type 0} → (List ℕ → Option A) → Outcome → Result A
read_by parse (reply bytes) = result_of (parse bytes)
read_by parse (suppressed bytes) = raised timed_out
read_by parse dropped = raised timed_out

abbrev bytes_of : Outcome → Result (List ℕ)
bytes_of (reply bytes) = ok bytes
bytes_of (suppressed bytes) = raised timed_out
bytes_of dropped = raised timed_out

not_zero : (n : ℕ) → n ≢ 0 → (n == 0) ≡ false
not_zero n h = ground (arith, h)

high_of : (high low : ℕ) → low < 2 ^ 8 → (high * 2 ^ 8 + low) / 2 ^ 8 ≡ high
high_of high low h = omega arith

low_of : (high low : ℕ) → low < 2 ^ 8 → (high * 2 ^ 8 + low) % 2 ^ 8 ≡ low
low_of high low h = omega arith

module _ {S : Type 0} (w : Wire S) where
  unfoldable pub send : {A : Type 0} → List ℕ → (List ℕ → Option A) → Method S A
  send req parse s = let (o, t) = w req s in (read_by parse o, t)

  send-Sends :
      {A : Type 0} (req : List ℕ) (parse : List ℕ → Option A)
      → ((sid nrc : ℕ) → parse (0x7F ∷ sid ∷ nrc ∷ []) ≡ none)
      → Sends w req parse (send req parse)
  unfolding send
  send-Sends req parse refusal = record {
    accepted = λ s t bytes a h p. rw (h, p) refl;
    refused = λ s t nrc h other. rw (h, refusal (get_or req 0 0) nrc) refl;
  }

  abbrev ask_seed : Method S (List ℕ)
  ask_seed = send (0x27 ∷ 0x01 ∷ []) (stripped (0x67 ∷ 0x01 ∷ []))

  abbrev give_key : List ℕ → Method S (Unit {0})
  give_key key = send (0x27 ∷ 0x02 ∷ key) (λ bytes. void (stripped (0x67 ∷ 0x02 ∷ []) bytes))

  abbrev with_key : Option (List ℕ) → S → Result (Unit {0}) × S
  with_key none t = (raised uncaught, t)
  with_key (some key) t = give_key key t

  abbrev with_seed : (List ℕ → Option (List ℕ)) → Result (List ℕ) → S → Result (Unit {0}) × S
  with_seed algo (raised e) t = (raised e, t)
  with_seed algo (ok seed) t = if from_bytes 0 seed == 0 then (ok tt, t) else with_key (algo seed) t

  abbrev ask_write : Option (List ℕ) → Method S (Unit {0})
  ask_write none s = (raised uncaught, s)
  ask_write (some bytes) s =
      send (0x2E ∷ 0xF2 ∷ 0x00 ∷ bytes) (λ bytes. void (stripped (0x6E ∷ 0xF2 ∷ 0x00 ∷ []) bytes)) s

  abbrev write_by : Option DidCodec → List ℕ → Method S (Unit {0})
  write_by none value = λ s. (raised uncaught, s)
  write_by (some codec) value = ask_write (codec.encode value)

  abbrev ask_read : Option DidCodec → ℕ → ℕ → Method S (List ℕ)
  ask_read none high low s = (raised uncaught, s)
  ask_read (some codec) high low s =
      send (0x22 ∷ high ∷ low ∷ [])
        (λ bytes. decoded codec (exactly codec.len (stripped (0x62 ∷ high ∷ low ∷ []) bytes))) s

  abbrev ascii : ℕ → DidCodec
  ascii n = record { encode = encode_ascii; decode = decode_ascii; len = n }

  abbrev pub bench_lib : Udsoncan S
  bench_lib = record {
    ascii_codec = ascii;
    change_session = λ session.
        send (0x10 ∷ session ∷ [])
          (λ bytes. void (exactly 4 (stripped (0x50 ∷ session ∷ []) bytes)));
    read_data_by_identifier = λ dids did. ask_read (dids did) (did / 2 ^ 8) (did % 2 ^ 8);
    write_data_by_identifier = λ dids did. write_by (dids did);
    get_dtc_by_status_mask = λ mask.
        send (0x19 ∷ 0x02 ∷ mask ∷ []) (λ bytes. after_mask (stripped (0x59 ∷ 0x02 ∷ []) bytes));
    clear_dtc = λ group.
        send (0x14 ∷ group / 2 ^ 16 ∷ group / 2 ^ 8 % 2 ^ 8 ∷ group % 2 ^ 8 ∷ [])
          (λ bytes. void (stripped (0x54 ∷ []) bytes));
    request_seed = λ level. ask_seed;
    send_key = λ level. give_key;
    unlock_security_access = λ algo level s. let (r, t) = ask_seed s in with_seed algo r t;
    exchange = λ req s. let (o, t) = w req s in (bytes_of o, t);
  }

  pub bench_lib-Documented : Documented bench_lib w
  bench_lib-Documented = record {
    session = send-Sends _ _ (λ sid nrc. refl);
    seed = send-Sends _ _ (λ sid nrc. refl);
    key = λ key. send-Sends _ _ (λ sid nrc. refl);
    unlock = λ algo s t seed key asked some_seed computed.
        rw (asked, not_zero (from_bytes 0 seed) some_seed, computed) refl;
    already = λ algo s t seed asked four zero. rw (asked, zero) refl;
    write =
        λ dids codec value bytes known coded. rw (known, coded) (send-Sends _ _ (λ sid nrc. refl));
    not_encoded = λ dids codec value s known none_coded. rw (known, none_coded) refl;
    read = λ dids codec high low high_byte low_byte known.
        rw (known, high_of high low low_byte, low_of high low low_byte)
          (send-Sends _ _ (λ sid nrc. refl));
    dtcs = λ mask. send-Sends _ _ (λ sid nrc. refl);
    clear = send-Sends _ _ (λ sid nrc. refl);
    raw = λ req bytes s t h. rw h refl;
    ascii_len = λ n. refl;
    ascii_decode = λ n bytes exact h. decode-ascii bytes h;
  }
