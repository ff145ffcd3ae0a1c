-- ===== src/Server/Media/Files.antt =====
-- internal/server/media.go: whose file of the cache a look-up finds.
use curtilage.Prelude.Map.{get}
use curtilage.MediaCache.{Key, Entry, Cache, eq_key, filename, get_cut}
use curtilage.MediaCache.Sound.{fill_start_joined, fill_start-fetching}
use curtilage.Prelude.{
  Option-cases, ◌≡◌, contains, Bool-cases, refl, ◌⊎◌, inl, inr, Option, none, some, Text,
  if◌then◌else◌, eq_text, IfSome, by_test,
}
use curtilage.Server.Media.Door.{Source, Outside, Door, Plan, look_up, fill}

-- The path of a key's file: that of its entry in the cache, or the one that a fill gives it.
abbrev pub IsFileOf : Key → Cache → Text → Type 0
IsFileOf key c path =
    (path ≡ filename key) ⊎ ((e : Entry) × (get key c.entries ≡ some e) × (e.path ≡ path))

landed_file :
    (x : Outside) (key : Key) (source : Source) (landed : Text → Door) (lost : Door)
    → IfSome
        (λ path. path ≡ filename key)
        (elim source as (λ _. Door × Option Text) [
          | Source.got kind bytes ↦
              if x.written then (landed bytes, some (filename key)) else (lost, none)
          | Source.missing ↦ (lost, none)
          | Source.broken ↦ (lost, none)
        ]).1
landed_file x key (Source.got kind bytes) landed lost =
    by_test {B = Door × Option Text} (λ a. IfSome (λ path. path ≡ filename key) a.1) x.written _ _
      refl tt
landed_file x key Source.missing landed lost = tt
landed_file x key Source.broken landed lost = tt

fill-filename :
    (x : Outside) (key : Key) (source : Source) (d : Door)
    → get key d.cache.entries ≡ none
    → IfSome (λ path. path ≡ filename key) (fill x key source d).1
unfolding fill
fill-filename x key source d n = elim (Bool-cases (contains d.cache.inflight key)) [
  | inl t ↦
      rw (fill, fill_start_joined key d.cache n t)
        (by_test (IfSome (λ path. path ≡ filename key)) (x.waited key) _ _ refl tt)
  | inr f ↦ rw (fill, fill_start-fetching key d.cache n f) (landed_file x key source _ _)
]

get_cut_miss : (k : Key) (c : Cache) → get k c.entries ≡ none → get_cut k c ≡ (c, none)
unfolding get_cut
get_cut_miss k c n = rw (get_cut, n) refl

of_filename :
    (key : Key) (c : Cache) (o : Option Text)
    → IfSome (λ path. path ≡ filename key) o
    → IfSome (IsFileOf key c) o
of_filename key c none h = tt
of_filename key c (some path) h = inl h

pub look_up-IsFileOf :
    (x : Outside) (p : Plan) (d : Door) → IfSome (IsFileOf p.key d.cache) (look_up x p d).1
unfolding look_up get_cut
look_up-IsFileOf x p d = elim (Option-cases (get p.key d.cache.entries)) [
  | inl n ↦
      let missing : get p.key (get_cut p.key d.cache).0.entries ≡ none =
        rw (get_cut_miss p.key d.cache n) n in
      rw (look_up, get_cut_miss p.key d.cache n)
        (of_filename p.key d.cache _ (fill-filename x p.key p.source _ missing))
  | inr (e, h) ↦ rw (look_up, get_cut, h) (inr (e, h, refl))
]
