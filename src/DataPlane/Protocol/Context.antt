-- ===== src/DataPlane/Protocol/Context.antt =====
-- What the context of a TSIG error reply is, in terms of the octets and the records of the wire.
use mathlib.Core.Option.{some-injective}
use astropath_dns_relay.Prelude.{
  ℕ, zero, suc, ◌*◌, ◌+◌, ◌/◌, ◌%◌, ◌<◌, List, [], ◌∷◌, ◌≡◌, ◌≢◌, refl, sym, subst, inl, inr,
  Option, none, some, Text, ◌==◌, nat_eq, arith, Bool-cases, Option-cases,
}
use astropath_dns_relay.Prelude.Optional.{bind-eq-some}
use astropath_dns_relay.Dns.{DnsName}
use astropath_dns_relay.DataPlane.Protocol.{
  Codec, TsigWire, header, unpack_header, skip_questions, read_rdata, read_records,
  extract_tsig_context,
}

-- The twelve octets of a header, as the numbers that are read from them.
record Octets (bytes : List ℕ) (id flags questions records : ℕ) : Type 0 where
  a : ℕ
  b : ℕ
  e : ℕ
  f : ℕ
  tail : List ℕ
  are : bytes ≡ a ∷ b ∷ e ∷ f ∷ tail
  id_is : id ≡ a * 256 + b
  flags_are : flags ≡ e * 256 + f
  counts_are :
      (qd_high qd_low an_high an_low ns_high ns_low ar_high ar_low : ℕ) × (tail
        ≡ qd_high ∷ qd_low ∷ an_high ∷ an_low ∷ ns_high ∷ ns_low ∷ ar_high ∷ ar_low ∷ [])
      × (questions ≡ qd_high * 256 + qd_low)
      × (records ≡ an_high * 256 + an_low + (ns_high * 256 + ns_low) + (ar_high * 256 + ar_low))

header-Octets :
    (bytes : List ℕ) (id flags qd others : ℕ)
    → header bytes ≡ some (id, flags, qd, others)
    → Octets bytes id flags qd others
unfolding header unpack_header
header-Octets (a ∷ b ∷ e ∷ f ∷ q ∷ r ∷ s ∷ t ∷ u ∷ v ∷ w ∷ x ∷ []) id flags qd others h = record {
  a = a;
  b = b;
  e = e;
  f = f;
  tail = q ∷ r ∷ s ∷ t ∷ u ∷ v ∷ w ∷ x ∷ [];
  are = refl;
  id_is = ground arith;
  flags_are = ground arith;
  counts_are = (q, r, s, t, u, v, w, x, refl, ground arith, ground arith);
}
header-Octets (a ∷ b ∷ e ∷ f ∷ q ∷ r ∷ s ∷ t ∷ u ∷ v ∷ w ∷ x ∷ y ∷ z ∷ rest) id flags qd others h =
    elim (Option-cases (unpack_header rest)) [
      | inl odd ↦ absurd (ground (arith, odd))
      | inr (words, even) ↦ absurd (ground (arith, even))
    ]
header-Octets _ id flags qd others h = absurd (ground arith)

module _ {N K C : Type 0} ⦃d : DnsName N⦄ (codec : Codec N K C) where
  -- A question is a name and two numbers.
  pub data Skips : ℕ → C → C → Type 0 where
    no_question : (c : C) → Skips 0 c c
    question :
        {n rdtype rdclass : ℕ} {name : N} {c c1 c2 c3 c4 : C}
        → codec.get_name c ≡ some (name, c1)
        → codec.get_u16 c1 ≡ some (rdtype, c2)
        → codec.get_u16 c2 ≡ some (rdclass, c3)
        → Skips n c3 c4
        → Skips (suc n) c c4

  -- The data of a record: octets of any type but TSIG (250), or what is read as one.
  pub data ReadsData (name : N) (rdtype rdclass rdlen : ℕ)
      : Option N → Option (List ℕ) → C → Option N → Option (List ℕ) → C → Type 0 where
    skipped :
        {keyname : Option N} {mac : Option (List ℕ)} {octets : List ℕ} {c c' : C}
        → rdtype ≢ 250
        → codec.get_bytes rdlen c ≡ some (octets, c')
        → ReadsData name rdtype rdclass rdlen keyname mac c keyname mac c'
    unsigned :
        {keyname : Option N} {mac : Option (List ℕ)} {c c' : C}
        → rdtype ≡ 250
        → codec.get_tsig rdclass c ≡ some (none, c')
        → ReadsData name rdtype rdclass rdlen keyname mac c keyname mac c'
    signed :
        {keyname : Option N} {mac : Option (List ℕ)} {octets : List ℕ} {c c' : C}
        → rdtype ≡ 250
        → codec.get_tsig rdclass c ≡ some (some octets, c')
        → ReadsData name rdtype rdclass rdlen keyname mac c (some name) (some octets) c'

  pub data Reads : ℕ → Option N → Option (List ℕ) → C → Option N → Option (List ℕ) → Type 0 where
    no_record :
        (keyname : Option N) (mac : Option (List ℕ)) (c : C) → Reads 0 keyname mac c keyname mac
    one_record :
        {n rdtype rdclass ttl rdlen : ℕ} {name : N} {k k' k'' : Option N}
        {m m' m'' : Option (List ℕ)} {c c1 c2 c3 c4 c5 inner inner' c6 : C}
        → codec.get_name c ≡ some (name, c1)
        → codec.get_u16 c1 ≡ some (rdtype, c2)
        → codec.get_u16 c2 ≡ some (rdclass, c3)
        → codec.get_u32 c3 ≡ some (ttl, c4)
        → codec.get_u16 c4 ≡ some (rdlen, c5)
        → codec.restrict rdlen c5 ≡ some inner
        → ReadsData name rdtype rdclass rdlen k m inner k' m' inner'
        → codec.release c5 inner' ≡ some c6
        → Reads n k' m' c6 k'' m''
        → Reads (suc n) k m c k'' m''

  -- The head of the wire is the id in two octets, then two octets with the flag QR, four bits of the
  -- opcode and eleven other bits, the highest first, and the counts of the four sections. The
  -- questions follow, and then the records, whose last TSIG gives the keyname and the MAC.
  pub record IsContext (wire : Text) (ctx : TsigWire N) : Type 0 where
    pub id_high : ℕ
    pub id_low : ℕ
    pub high : ℕ
    pub low : ℕ
    pub tail : List ℕ
    pub after : C
    pub read :
        codec.get_bytes 12 (codec.cursor wire) ≡ some (id_high ∷ id_low ∷ high ∷ low ∷ tail, after)
    pub id_is : ctx.id ≡ id_high * 256 + id_low
    pub top : ℕ
    pub others : ℕ
    pub flags_are : high * 256 + low ≡ top * 32_768 + ctx.opcode * 2048 + others
    pub opcode_fits : ctx.opcode < 16
    pub others_fit : others < 2048
    pub questions : ℕ
    pub records : ℕ
    pub counts_are :
        (qd_high qd_low an_high an_low ns_high ns_low ar_high ar_low : ℕ) × (tail
          ≡ qd_high ∷ qd_low ∷ an_high ∷ an_low ∷ ns_high ∷ ns_low ∷ ar_high ∷ ar_low ∷ [])
        × (questions ≡ qd_high * 256 + qd_low)
        × (records ≡ an_high * 256 + an_low + (ns_high * 256 + ns_low) + (ar_high * 256 + ar_low))
    pub begin : C
    pub skips : Skips questions after begin
    pub reads : Reads records none none begin ctx.keyname ctx.mac

  skip_questions-Skips : (n : ℕ) (c c' : C) → skip_questions codec n c ≡ some c' → Skips n c c'
  unfolding skip_questions
  skip_questions-Skips zero c c' e = subst (Skips 0 c) (some-injective c c' e) (no_question c)
  skip_questions-Skips (suc n) c c' e =
      let ((name, c1), r1, e1) = bind-eq-some (codec.get_name c) _ e in
      let ((rdtype, c2), r2, e2) = bind-eq-some (codec.get_u16 c1) _ e1 in
      let ((rdclass, c3), r3, e3) = bind-eq-some (codec.get_u16 c2) _ e2 in
      question r1 r2 r3 (skip_questions-Skips n c3 c' e3)

  read_rdata-ReadsData :
      (name : N) (rdtype rdclass rdlen : ℕ) (k k' : Option N) (m m' : Option (List ℕ)) (c c' : C)
      → read_rdata codec name rdtype rdclass rdlen (k, m) c ≡ some ((k', m'), c')
      → ReadsData name rdtype rdclass rdlen k m c k' m' c'
  unfolding read_rdata
  read_rdata-ReadsData name rdtype rdclass rdlen k k' m m' c c' e =
      elim (Bool-cases (rdtype == 250)) [
        | inr other_ ↦ elim (Option-cases (codec.get_bytes rdlen c)) [
          | inl fails ↦ absurd (ground (arith, fails))
          | inr ((octets, c1), read) ↦
              become ((k, m), c1) (skipped (λ q. absurd (ground (arith, q))) read)
                (ground (arith, read))
        ]
        | inl tsig ↦
            let is : rdtype ≡ 250 = ground arith in
            elim (Option-cases (codec.get_tsig rdclass c)) [
              | inl fails ↦ absurd (ground (arith, fails))
              | inr ((none, c1), read) ↦
                  become ((k, m), c1) (unsigned is read) (ground (arith, read))
              | inr ((some octets, c1), read) ↦
                  become ((some name, some octets), c1) (signed is read) (ground (arith, read))
            ]
      ]
    where
      become :
          (t : (Option N × Option (List ℕ)) × C)
          → ReadsData name rdtype rdclass rdlen k m c t.0.0 t.0.1 t.1
          → ◌≡◌ {A = Option ((Option N × Option (List ℕ)) × C)} (some t) (some ((k', m'), c'))
          → ReadsData name rdtype rdclass rdlen k m c k' m' c'
      become t h e =
          subst (λ t. ReadsData name rdtype rdclass rdlen k m c t.0.0 t.0.1 t.1)
            (some-injective t ((k', m'), c') e) h

  read_records-Reads :
      (n : ℕ) (k k' : Option N) (m m' : Option (List ℕ)) (c : C)
      → read_records codec n (k, m) c ≡ some (k', m')
      → Reads n k m c k' m'
  unfolding read_records
  read_records-Reads zero k k' m m' c e =
      subst (λ f. Reads 0 k m c f.0 f.1) (some-injective (k, m) (k', m') e) (no_record k m c)
  read_records-Reads (suc n) k k' m m' c e =
      let ((name, c1), r1, e1) = bind-eq-some (codec.get_name c) _ e in
      let ((rdtype, c2), r2, e2) = bind-eq-some (codec.get_u16 c1) _ e1 in
      let ((rdclass, c3), r3, e3) = bind-eq-some (codec.get_u16 c2) _ e2 in
      let ((ttl, c4), r4, e4) = bind-eq-some (codec.get_u32 c3) _ e3 in
      let ((rdlen, c5), r5, e5) = bind-eq-some (codec.get_u16 c4) _ e4 in
      let (inner, r6, e6) = bind-eq-some (codec.restrict rdlen c5) _ e5 in
      let ((found, inner'), r7, e7) =
        bind-eq-some (read_rdata codec name rdtype rdclass rdlen (k, m) inner) _ e6 in
      let (c6, r8, e8) = bind-eq-some (codec.release c5 inner') _ e7 in
      one_record r1 r2 r3 r4 r5 r6
        (read_rdata-ReadsData name rdtype rdclass rdlen k found.0 m found.1 inner inner' r7) r8
        (read_records-Reads n found.0 k' found.1 m' c6 e8)

  context_lem :
      (wire : Text) (bytes : List ℕ) (c c' : C) (id flags qd others : ℕ) (keyname : Option N)
      (mac : Option (List ℕ))
      → codec.get_bytes 12 (codec.cursor wire) ≡ some (bytes, c)
      → Octets bytes id flags qd others
      → skip_questions codec qd c ≡ some c'
      → read_records codec others (none, none) c' ≡ some (keyname, mac)
      → IsContext wire
          (record { id = id; opcode = flags / 2048 % 16; keyname = keyname; mac = mac })
  context_lem wire bytes c c' id flags qd others keyname mac read o skips reads = record {
    id_high = o.a;
    id_low = o.b;
    high = o.e;
    low = o.f;
    tail = o.tail;
    after = c;
    read = ground (arith, read, o.are);
    id_is = o.id_is;
    top = flags / 32_768;
    others = flags % 2048;
    flags_are = omega (arith, o.flags_are);
    opcode_fits = omega arith;
    others_fit = omega arith;
    questions = qd;
    records = others;
    counts_are = o.counts_are;
    begin = c';
    skips = skip_questions-Skips qd c c' skips;
    reads = read_records-Reads others none keyname none mac c' reads;
  }

  pub extract_tsig_context-IsContext :
      (wire : Text) (ctx : TsigWire N)
      → extract_tsig_context codec wire ≡ some ctx
      → IsContext wire ctx
  unfolding extract_tsig_context
  extract_tsig_context-IsContext wire ctx e =
      let ((bytes, c), read, e1) = bind-eq-some (codec.get_bytes 12 (codec.cursor wire)) _ e in
      let ((id, flags, qd, others), head, e2) = bind-eq-some (header bytes) _ e1 in
      let (c', skipped_, e3) = bind-eq-some (skip_questions codec qd c) _ e2 in
      let ((keyname, mac), records, e4) =
        bind-eq-some (read_records codec others (none, none) c') _ e3 in
      subst (IsContext wire) (some-injective _ ctx e4) (
        context_lem wire bytes c c' id flags qd others keyname mac read
          (header-Octets bytes id flags qd others head) skipped_ records)

  Skips-skip_questions : {n : ℕ} {c c' : C} → Skips n c c' → skip_questions codec n c ≡ some c'
  unfolding skip_questions
  Skips-skip_questions (no_question c) = refl
  Skips-skip_questions (question r1 r2 r3 rest) = rw (r1, r2, r3) (Skips-skip_questions rest)

  ReadsData-read_rdata :
      {name : N} {rdtype rdclass rdlen : ℕ} {k k' : Option N} {m m' : Option (List ℕ)} {c c' : C}
      → ReadsData name rdtype rdclass rdlen k m c k' m' c'
      → read_rdata codec name rdtype rdclass rdlen (k, m) c ≡ some ((k', m'), c')
  unfolding read_rdata
  ReadsData-read_rdata {rdtype = rdtype} (skipped ne read) = elim (Bool-cases (rdtype == 250)) [
    | inl is ↦ absurd (ne (ground arith))
    | inr other_ ↦ rw (other_, read) refl
  ]
  ReadsData-read_rdata (unsigned is read) = rw (is, read) refl
  ReadsData-read_rdata (signed is read) = rw (is, read) refl

  Reads-read_records :
      {n : ℕ} {k k' : Option N} {m m' : Option (List ℕ)} {c : C}
      → Reads n k m c k' m'
      → read_records codec n (k, m) c ≡ some (k', m')
  unfolding read_records
  Reads-read_records (no_record k m c) = refl
  Reads-read_records (one_record r1 r2 r3 r4 r5 r6 data_ r8 rest) =
      let inside = ReadsData-read_rdata data_ in
      rw (r1, r2, r3, r4, r5, r6, inside, r8) (Reads-read_records rest)

  pub IsContext-extract_tsig_context :
      (wire : Text) (ctx : TsigWire N)
      → IsContext wire ctx
      → extract_tsig_context codec wire ≡ some ctx
  unfolding extract_tsig_context header unpack_header
  IsContext-extract_tsig_context wire ctx x =
      let (q1, q0, a1, a0, n1, n0, x1, x0, tail, qd, others) = x.counts_are in
      let read =
        subst
          (λ tail.
            codec.get_bytes 12 (codec.cursor wire)
            ≡ some (x.id_high ∷ x.id_low ∷ x.high ∷ x.low ∷ tail, x.after))
          tail x.read in
      let skips =
        subst (λ n. skip_questions codec n x.after ≡ some x.begin) qd
          (Skips-skip_questions x.skips) in
      let reads =
        subst (λ n. read_records codec n (none, none) x.begin ≡ some (ctx.keyname, ctx.mac)) others
          (Reads-read_records x.reads) in
      let opcode : (x.high * 256 + x.low) / 2048 % 16 ≡ ctx.opcode =
        omega (arith, x.flags_are, x.opcode_fits, x.others_fit) in
      rw (read, skips, reads, opcode, sym x.id_is) refl
