-- ===== src/StatusFile/Laws.antt =====
-- A slot status is read back from the group that it was written to.
use rauc.Prelude.{
  inl, inr, Bool-cases, ℕ, ◌*◌, ◌/◌, ◌^◌, ◌<◌, ◌≡◌, ◌≢◌, refl, ◌∙◌, Option, none, some, [], ◌∷◌,
  Text, codes, text_eq, ltb, arith,
}
use mathlib.Core.Option
use mathlib.Core.Option.{some-injective}
use rauc.Slot.{Checksum, SlotStatus, clear_status}
use rauc.StatusFile.{
  Formats, Group, set_key, consume_string, get_uint64, get_count, get_time, get_checksum,
  get_slot_status, time_value, count_value, size_value, set_slot_status,
}

-- The time at the start of its second.
abbrev pub whole_second : ℕ → ℕ
whole_second t = t / 1000000 * 1000000

-- The start of the year 10000, in microseconds since 1970.
abbrev pub year_10000 : ℕ
year_10000 = 253402300800000000

-- What GLib writes it reads; a time without the fraction of its second, before the year 10000.
pub record IsFormats (f : Formats) : Type 0 where
  pub number : (n : ℕ) → n < 2 ^ 64 → f.parse_uint64 (f.print_uint64 n) ≡ some n
  pub time : (t : ℕ) → t < year_10000 → f.parse_time (f.format_time t) ≡ some (whole_second t)
  pub time_nonempty : (t : ℕ) → f.format_time t ≢ []

-- A status whose texts are not empty and whose numbers and times fit; there is no size without a
-- digest.
pub record IsStorable (st : SlotStatus) : Type 0 where
  pub compatible : st.bundle_compatible ≢ some []
  pub version : st.bundle_version ≢ some []
  pub description : st.bundle_description ≢ some []
  pub build : st.bundle_build ≢ some []
  pub hash : st.bundle_hash ≢ some []
  pub status : st.status ≢ some []
  pub digest : st.checksum.digest ≢ some []
  pub size : st.checksum.size < 2 ^ 64
  pub no_size : st.checksum.digest ≡ none → st.checksum.size ≡ 0
  pub installed : st.installed_count < 2 ^ 32
  pub activated : st.activated_count < 2 ^ 32
  pub installed_time : (t : ℕ) → st.installed_timestamp ≡ some t → t < year_10000
  pub activated_time : (t : ℕ) → st.activated_timestamp ≡ some t → t < year_10000

-- What is left of a status in the file: its transaction is lost, and the fractions of a second.
abbrev pub as_read : SlotStatus → SlotStatus
as_read st = record st {
  installed_txn = none;
  installed_timestamp = Option.map whole_second st.installed_timestamp;
  activated_timestamp = Option.map whole_second st.activated_timestamp;
}

kept :
    (g : Group) (key : Text) (o : Option Text) → g key ≡ o → o ≢ some [] → consume_string g key ≡ o
unfolding consume_string
kept g key none e n = rw (consume_string, e) refl
kept g key (some []) e n = absurd (n refl)
kept g key (some (c ∷ s)) e n = rw (consume_string, e) refl

module _ (f : Formats) (laws : IsFormats f) where
  time_kept :
      (g : Group) (key : Text) (o : Option ℕ)
      → ((t : ℕ) → o ≡ some t → t < year_10000)
      → g key ≡ time_value f o
      → get_time f g key ≡ Option.map whole_second o
  unfolding get_time
  time_kept g key none m e = rw (get_time, kept g key none e (λ z. cc)) refl
  time_kept g key (some t) m e =
      rw
        (
          get_time,
          kept g key (some (f.format_time t)) e
              (λ z. laws.time_nonempty t (some-injective (f.format_time t) [] z)),
        )
        (laws.time t (m t refl))

  count_kept :
      (g : Group) (key : Text) (n : ℕ)
      → n < 2 ^ 32
      → g key ≡ count_value f n
      → get_count f g key ≡ n
  unfolding get_count get_uint64
  count_kept g key n h e = elim (Bool-cases (ltb 0 n)) [
    | inl pos ↦
        let there : g key ≡ some (f.print_uint64 n) = e ∙ rw pos refl in
        let read = laws.number n (omega arith) in
        rw (get_count, get_uint64, there, read) (ground arith)
    | inr zero_count ↦
        let gone : g key ≡ none = e ∙ rw zero_count refl in
        rw (get_count, get_uint64, gone) (ground arith)
  ]

  checksum_kept :
      (g : Group) (c : Checksum)
      → g (codes "sha256") ≡ c.digest
      → g (codes "size") ≡ size_value f c
      → c.digest ≢ some []
      → c.size < 2 ^ 64
      → (c.digest ≡ none → c.size ≡ 0)
      → get_checksum f g ≡ c
  unfolding get_checksum get_uint64
  checksum_kept g c = at c.digest c.size
    where
      at :
          (d : Option Text) (n : ℕ)
          → g (codes "sha256") ≡ d
          → g (codes "size") ≡ size_value f (record { digest = d; size = n })
          → d ≢ some []
          → n < 2 ^ 64
          → (d ≡ none → n ≡ 0)
          → get_checksum f g ≡ record { digest = d; size = n }
      at none n e s k l z = rw (get_checksum, kept g (codes "sha256") none e k, z refl) refl
      at (some d) n e s k l z =
          rw (get_checksum, kept g (codes "sha256") (some d) e k, get_uint64, s, laws.number n l)
            refl

  -- A status that is written to a group is read back from it, but for the transaction, which is lost,
  -- and the fractions of a second of its two times: for a status whose texts are not empty, whose
  -- numbers fit, whose times are before the year 10000 and which has no size without a digest.
  pub get-set_slot_status :
      (st old : SlotStatus) (g : Group)
      → IsStorable st
      → get_slot_status f (set_slot_status f st g) old ≡ as_read st
  unfolding get_slot_status set_slot_status set_key text_eq clear_status
  get-set_slot_status st old g s =
      let w = set_slot_status f st g in
      let compatible = kept w (codes "bundle.compatible") st.bundle_compatible refl s.compatible in
      let version = kept w (codes "bundle.version") st.bundle_version refl s.version in
      let description =
        kept w (codes "bundle.description") st.bundle_description refl s.description in
      let build = kept w (codes "bundle.build") st.bundle_build refl s.build in
      let hash = kept w (codes "bundle.hash") st.bundle_hash refl s.hash in
      let status = kept w (codes "status") st.status refl s.status in
      let checksum = checksum_kept w st.checksum refl refl s.digest s.size s.no_size in
      let installed_time =
        time_kept w (codes "installed.timestamp") st.installed_timestamp s.installed_time refl in
      let installed = count_kept w (codes "installed.count") st.installed_count s.installed refl in
      let activated_time =
        time_kept w (codes "activated.timestamp") st.activated_timestamp s.activated_time refl in
      let activated = count_kept w (codes "activated.count") st.activated_count s.activated refl in
      λ i. record {
        bundle_compatible = compatible i;
        bundle_version = version i;
        bundle_description = description i;
        bundle_build = build i;
        bundle_hash = hash i;
        status = status i;
        checksum = checksum i;
        installed_txn = none;
        installed_timestamp = installed_time i;
        installed_count = installed i;
        activated_timestamp = activated_time i;
        activated_count = activated i;
      }
