-- ===== src/Configuration/Reading.antt =====
-- What the service knows of its configuration after it has read it.
use process_manager_service.Prelude.{
  ap, sym, ltb, if◌then◌else◌, ◌-◌, ◌<◌, arith, false, refl, returned, threw, undefined, true, ℕ,
  ◌%◌, ◌^◌, ◌↔◌, ◌≡◌, Outcome, ◌>>=◌, ◌∙◌,
}
use process_manager_service.Configuration.{
  Field, assign, assign_all, negative, boolean, floating, floating_negative, number, wrong_type,
  absent, ServerJson, ServerConfiguration, File, not_open, no_json, json_file, read_configuration,
  caught, read_from_json,
}

abbrev pub json_of : Field → Field → Field → Field → ServerJson
json_of a b s p = record {
  max_message_resends_field = a;
  time_between_message_resends_field = b;
  message_buffer_size_field = s;
  listening_port_field = p;
}

-- What a value gives as an unsigned integer below `modulus`, by what it is.
abbrev pub Converts : ℕ → Field → ℕ → Type 0
Converts modulus (number n) v = v ≡ n % modulus
Converts modulus (negative n) v = v ≡ modulus - 1 - n % modulus
Converts modulus (boolean b) v = v ≡ (if b then 1 else 0)
Converts modulus (floating n) v = (n < modulus) × (v ≡ n)
Converts modulus floating_negative v = ⊥
Converts modulus wrong_type v = ⊥
Converts modulus absent v = ⊥

abbrev pub configuration_of : ℕ → ℕ → ℕ → ℕ → ServerConfiguration
configuration_of a b s p = record {
  max_message_resends = a;
  time_between_message_resends_in_seconds = b;
  message_buffer_size = s;
  listening_port = p;
}

-- Each field of a document converts.
abbrev pub AllConvert : ServerJson → ℕ → ℕ → ℕ → ℕ → Type 0
AllConvert json a b s p =
    Converts (2 ^ 32) json.max_message_resends_field a
    × Converts (2 ^ 32) json.time_between_message_resends_field b
    × Converts (2 ^ 32) json.message_buffer_size_field s
    × Converts (2 ^ 16) json.listening_port_field p

Converts-assign :
    (modulus : ℕ) (f : Field) (put : ℕ → ServerConfiguration) (c : ServerConfiguration) (v : ℕ)
    → Converts modulus f v
    → assign modulus f put c ≡ returned (put v)
Converts-assign modulus (number n) put c v h = ap (λ x. returned (put x)) (sym h)
Converts-assign modulus (negative n) put c v h = ap (λ x. returned (put x)) (sym h)
Converts-assign modulus (boolean b) put c v h = ap (λ x. returned (put x)) (sym h)
Converts-assign modulus (floating n) put c v (below, h) =
    let small : ltb n modulus ≡ true = ground (arith, below) in
    rw small (ap (λ x. returned (put x)) (sym h))
Converts-assign modulus floating_negative put c v h = absurd h
Converts-assign modulus wrong_type put c v h = absurd h
Converts-assign modulus absent put c v h = absurd h

assign-Converts :
    (modulus : ℕ) (f : Field) (put : ℕ → ServerConfiguration) (c c' : ServerConfiguration)
    → assign modulus f put c ≡ returned c'
    → (v : ℕ) × Converts modulus f v × (c' ≡ put v)
assign-Converts modulus (number n) put c c' h = (_, refl, ground arith)
assign-Converts modulus (negative n) put c c' h = (_, refl, ground arith)
assign-Converts modulus (boolean b) put c c' h = (_, refl, ground arith)
assign-Converts modulus (floating n) put c c' h = (n, (ground arith, refl), ground arith)
assign-Converts modulus floating_negative put c c' h = absurd (ground arith)
assign-Converts modulus wrong_type put c c' h = absurd (ground arith)
assign-Converts modulus absent put c c' h = absurd (ground arith)

bind_returned :
    {X A B : Type 0} (h : Outcome X A) (f : A → Outcome X B) (r : B)
    → (h >>= f) ≡ returned r
    → (a : A) × (h ≡ returned a) × (f a ≡ returned r)
bind_returned (returned a) f r e = (a, refl, e)
bind_returned (threw x) f r e = absurd cc
bind_returned undefined f r e = absurd cc

assign_all-AllConvert :
    (json : ServerJson) (c c' : ServerConfiguration)
    → assign_all json c ≡ returned c'
    → (a b s p : ℕ) × AllConvert json a b s p × (c' ≡ configuration_of a b s p)
unfolding assign_all
assign_all-AllConvert json c c' h =
    let (c1, e1, h1) = bind_returned _ _ c' h in
    let (c2, e2, h2) = bind_returned _ _ c' h1 in
    let (c3, e3, h3) = bind_returned _ _ c' h2 in
    let (a, ha, ea) = assign-Converts _ json.max_message_resends_field _ c c1 e1 in
    let (b, hb, eb) = assign-Converts _ json.time_between_message_resends_field _ c1 c2 e2 in
    let (s, hs, es) = assign-Converts _ json.message_buffer_size_field _ c2 c3 e3 in
    let (p, hp, ep) = assign-Converts _ json.listening_port_field _ c3 c' h3 in
    let third : c3 ≡ configuration_of a b s c.listening_port =
      es
      ∙ ap {A = ServerConfiguration} (λ x. record x { message_buffer_size = s })
          (eb
            ∙ ap {A = ServerConfiguration}
                (λ x. record x { time_between_message_resends_in_seconds = b }) ea) in
    (
      a,
      b,
      s,
      p,
      (ha, hb, hs, hp),
      ep ∙ ap {A = ServerConfiguration} (λ x. record x { listening_port = p }) third,
    )

AllConvert-assign_all :
    (json : ServerJson) (c : ServerConfiguration) (a b s p : ℕ)
    → AllConvert json a b s p
    → assign_all json c ≡ returned (configuration_of a b s p)
unfolding assign_all
AllConvert-assign_all json c a b s p (ha, hb, hs, hp) =
    rw (Converts-assign _ json.max_message_resends_field _ c a ha) (
      rw (Converts-assign _ json.time_between_message_resends_field _ _ b hb) (
        rw (Converts-assign _ json.message_buffer_size_field _ _ s hs)
          (Converts-assign _ json.listening_port_field _ _ p hp)))

caught_returned :
    {X : Type 0} (h : Outcome ServerConfiguration ServerConfiguration) (c : ServerConfiguration)
    → caught {X = X} h ≡ returned (true, c)
    → h ≡ returned c
caught_returned (returned c') c e = ground arith
caught_returned (threw c') c e = absurd (ground arith)
caught_returned undefined c e = absurd cc

numbers_of :
    (X : Type 0) (file : File) (c c' : ServerConfiguration)
    → read_configuration {X = X} file c ≡ returned (true, c')
    → (json : ServerJson) × (a b s p : ℕ) × (file ≡ json_file json)
      × AllConvert json a b s p
      × (c' ≡ configuration_of a b s p)
unfolding read_configuration read_from_json
numbers_of X (json_file json) c c' h =
    let (a, b, s, p, all, e) = assign_all-AllConvert json c c' (caught_returned _ c' h) in
    (json, a, b, s, p, refl, all, e)
numbers_of X not_open c c' h = absurd (ground arith)
numbers_of X no_json c c' h = absurd (ground arith)

-- A configuration is read exactly when the file is JSON in which each of the four fields converts, the
-- first three to a uint32_t and the port to a uint16_t: an integer modulo 2 ^ 32 or 2 ^ 16, a boolean
-- to 0 or 1, and a floating-point number, truncated, if it is in range. Then every field of the
-- configuration holds what its value converts to.
pub read_configuration_iff :
    (X : Type 0) (file : File) (c c' : ServerConfiguration)
    → (read_configuration {X = X} file c ≡ returned (true, c')) ↔ (
        (json : ServerJson) × (a b s p : ℕ) × (file ≡ json_file json)
        × AllConvert json a b s p
        × (c' ≡ configuration_of a b s p))
unfolding read_configuration read_from_json
read_configuration_iff X file c c' = (
  λ h. numbers_of X file c c' h,
  λ (json, a, b, s, p, ef, all, ec).
      rw (ef, ec, read_configuration) (rw (AllConvert-assign_all json c a b s p all) refl),
)

-- A read that fails at the port is reported as a failure, and yet the three fields before it have
-- been overwritten.
read_configuration_partial :
    (X : Type 0) (json : ServerJson) (c : ServerConfiguration) (a b s : ℕ)
    → json.max_message_resends_field ≡ number a
    → json.time_between_message_resends_field ≡ number b
    → json.message_buffer_size_field ≡ number s
    → json.listening_port_field ≡ wrong_type
    → read_configuration {X = X} (json_file json) c
      ≡ returned (
        false,
        record c {
          max_message_resends = a % 2 ^ 32;
          time_between_message_resends_in_seconds = b % 2 ^ 32;
          message_buffer_size = s % 2 ^ 32;
        },
      )
unfolding read_configuration
read_configuration_partial X json c a b s ea eb es ep = ground arith
