-- ===== src/Transfer/Source.antt =====
-- Where an object is downloaded from: select_source of server/src/transfer/mod.rs. The test for the
-- content type video/mp4 without regard to case, and the content type that storage.rs derives from a url,
-- are parameters. Bitrates are not negative, as convert/media.rs makes sure.
use tweet_db.Base.{
  ℕ, ◌≤◌, ◌<◌, ◌≡◌, ◌≢◌, refl, ap, Option, none, some, Bool, true, false, ◌&&◌, List, [], ◌∷◌, ◌++◌,
  ltb, if◌then◌else◌, String, All, All-map, All-append, sym, Bool-cases, inl, inr, ◌⊎◌, arith,
}
use mathlib.Core.Path.{subst}

pub data MediaType : Type 0 where
  photo video animated_gif : MediaType

pub record VideoVariant : Type 0 where
  pub content_type : String
  pub bitrate : Option ℕ
  pub url : String

pub record MediaResource : Type 0 where
  pub media_url : Option String
  pub video : Option (List VideoVariant)

pub record SelectedTransferSource : Type 0 where
  pub source_url : String
  pub source_kind : String
  pub source_content_type : Option String

-- `bitrate.unwrap_or_default()`
abbrev pub rate : VideoVariant → ℕ
rate v = elim v.bitrate [ none ↦ 0 | some n ↦ n ]

abbrev pub or_else {ℓ} : {A : Type ℓ} → Option A → Option A → Option A
or_else none other = other
or_else (some a) other = some a

abbrev pub first : List VideoVariant → Option VideoVariant
first [] = none
first (v ∷ vs) = some v

both_parts : (a : Bool) (m n : ℕ) → a && ltb m n ≡ true → (a ≡ true) × (m < n)
both_parts true m n h = (refl, ground arith)
both_parts false m n h = absurd (cc h)

not_greater : (a : Bool) (m n : ℕ) → a ≡ true → a && ltb m n ≡ false → n ≤ m
not_greater a m n e h = ground arith

below : (a b c : ℕ) → a ≤ b → b < c → a < c
below a b c h k = omega arith

less : (a b c : ℕ) → a < b → b < c → a < c
less a b c h k = omega arith

module _ (is_mp4 : String → Bool) (resolve_upload_content_type : String → String) where
  -- One more variant in front of those that `max_by_key` has compared; of equal ones it returns the last.
  abbrev pub better : VideoVariant → Option VideoVariant → Option VideoVariant
  better v none = if is_mp4 v.content_type then some v else none
  better v (some w) = if is_mp4 v.content_type && ltb (rate w) (rate v) then some v else some w

  unfoldable pub best : List VideoVariant → Option VideoVariant
  best [] = none
  best (v ∷ vs) = better v (best vs)

  abbrev pub from_url : Option String → Option SelectedTransferSource
  from_url none = none
  from_url (some url) = some (record {
    source_url = url;
    source_kind = "media_url";
    source_content_type = some (resolve_upload_content_type url);
  })

  abbrev pub from_variant : Option VideoVariant → Option SelectedTransferSource
  from_variant none = none
  from_variant (some v) = some (record {
    source_url = v.url;
    source_kind = "video_variant";
    source_content_type = some v.content_type;
  })

  abbrev pub from_video : Option (List VideoVariant) → Option SelectedTransferSource
  from_video none = none
  from_video (some variants) = from_variant (or_else (best variants) (first variants))

  unfoldable pub select_source : MediaType → MediaResource → Option SelectedTransferSource
  select_source photo r = from_url r.media_url
  select_source video r = or_else (from_video r.video) (from_url r.media_url)
  select_source animated_gif r = or_else (from_video r.video) (from_url r.media_url)

  -- The last of the mp4 variants with the greatest bitrate.
  abbrev pub IsBest : List VideoVariant → VideoVariant → Type 0
  IsBest variants v =
      (before : List VideoVariant) × (after : List VideoVariant) × (variants
        ≡ before ++ (v ∷ after))
      × (is_mp4 v.content_type ≡ true)
      × All (λ w. is_mp4 w.content_type ≡ true → rate w ≤ rate v) before
      × All (λ w. is_mp4 w.content_type ≡ true → rate w < rate v) after

  Found : List VideoVariant → Option VideoVariant → Type 0
  Found variants none = All (λ w. is_mp4 w.content_type ≡ false) variants
  Found variants (some v) = IsBest variants v

  better-Found :
      (v : VideoVariant) (variants : List VideoVariant) (o : Option VideoVariant)
      → Found variants o
      → Found (v ∷ variants) (better v o)
  unfolding Found
  better-Found v variants none all = elim (Bool-cases (is_mp4 v.content_type)) [
    | inl e ↦ rw e (
      [],
      variants,
      refl,
      e,
      tt,
      All-map _ (λ w not_it is_it. absurd (cc (not_it, is_it))) variants all,
    )
    | inr e ↦ rw e (e, all)
  ]
  better-Found v variants (some w) (before, after, split, mp4, le, lt) =
      elim (Bool-cases (is_mp4 v.content_type && ltb (rate w) (rate v))) [
        | inl e ↦ rw e (
            let (is_it, more) = both_parts (is_mp4 v.content_type) (rate w) (rate v) e in
            (
              [],
              variants,
              refl,
              is_it,
              tt,
              subst (All (λ x. is_mp4 x.content_type ≡ true → rate x < rate v)) (sym split) (
                  All-append _ before (w ∷ after)
                    (All-map _ (λ x h m. below (rate x) (rate w) (rate v) (h m) more) before le)
                    (
                      λ m. more,
                      All-map _ (λ x h m. less (rate x) (rate w) (rate v) (h m) more) after lt,
                    )),
            ))
        | inr e ↦ rw e (
          v ∷ before,
          after,
          ap (◌∷◌ v) split,
          mp4,
          (λ is_it. not_greater (is_mp4 v.content_type) (rate w) (rate v) is_it e, le),
          lt,
        )
      ]

  best-Found : (variants : List VideoVariant) → Found variants (best variants)
  unfolding Found best
  best-Found [] = tt
  best-Found (v ∷ variants) = better-Found v variants (best variants) (best-Found variants)

  -- The variants of a resource, none if it has no video part.
  abbrev pub variants_of : Option (List VideoVariant) → List VideoVariant
  variants_of none = []
  variants_of (some variants) = variants

  abbrev pub IsVideoSource : MediaResource → Option SelectedTransferSource → Type 0
  IsVideoSource r source =
      ((v : VideoVariant) × IsBest (variants_of r.video) v × (source ≡ from_variant (some v)))
      ⊎ (((v : VideoVariant) × (rest : List VideoVariant) × (variants_of r.video ≡ v ∷ rest)
            × All (λ w. is_mp4 w.content_type ≡ false) (v ∷ rest)
            × (source ≡ from_variant (some v)))
          ⊎ ((variants_of r.video ≡ []) × (source ≡ from_url r.media_url)))

  chosen_source :
      (url : Option String) (variants : List VideoVariant) (o : Option VideoVariant)
      → Found variants o
      → best variants ≡ o
      → IsVideoSource
          (record { media_url = url; video = some variants })
          (or_else (from_video (some variants)) (from_url url))
  unfolding Found
  chosen_source url variants (some v) is_best b = inl (v, is_best, rw b refl)
  chosen_source url [] none all b = inr (inr (refl, rw b refl))
  chosen_source url (v ∷ rest) none all b = inr (inl (v, rest, refl, all, rw b refl))

  video_source :
      (r : MediaResource) → IsVideoSource r (or_else (from_video r.video) (from_url r.media_url))
  video_source r = go r.video
    where
      go :
          (video : Option (List VideoVariant))
          → IsVideoSource
              (record { media_url = r.media_url; video = video })
              (or_else (from_video video) (from_url r.media_url))
      go none = inr (inr (refl, refl))
      go (some variants) =
          chosen_source r.media_url variants (best variants) (best-Found variants) refl

  -- The source of a video or an animated image is the last of its mp4 variants with the greatest bitrate;
  -- if there is none, its first variant; and without any variant, also when the resource has no video
  -- part at all, the url of the resource, if it has one.
  pub select_source_video :
      (kind : MediaType) (r : MediaResource) → kind ≢ photo → IsVideoSource r (select_source kind r)
  unfolding select_source
  select_source_video photo r h = absurd (h refl)
  select_source_video video r h = video_source r
  select_source_video animated_gif r h = video_source r
