-- ===== src/Desktop/Releases/Feed/Entries.antt =====
-- The entry of the feed that is read for a release (apps/desktop/src-tauri/src/commands/mod.rs,
-- `parse_release_atom_meta`).
use Prim.Native.String.{◌∷◌, count}
use text.Mathlib.TextLemmas.{nil-append, cons-append, length-append, append_assoc}
use link_pilot.Prelude.{
  ℕ, zero, suc, ◌<◌, String, ◌≡◌, refl, ap, sym, ◌∙◌, strip_prefix, true, false, Option, none, some,
  Option-cases, Bool-cases, inl, inr, is_some, if◌then◌else◌, ◌⧺◌, arith,
}
use link_pilot.Prelude.Splits.{
  cut_at, cut_at-some, cut_at-first, push_pair, push_pair-some, Lacks, cut_at-Lacks,
}
use link_pilot.Desktop.Releases.Feed.{
  ReleaseMeta, meta_of, find_entry, href_marker, parse_release_atom_meta,
}

-- What is read comes from one entry of the feed, from its `<entry>` to the next `</entry>`, in which the
-- mark stands.
pub record HasEntry (marker feed : String) (meta : ReleaseMeta) : Type 0 where
  pub before : String
  pub entry : String
  pub behind : String
  pub stands : feed ≡ before ⧺ (entry ⧺ ("</entry>" ⧺ behind))
  pub inside : String
  pub tagged : entry ≡ "<entry>" ⧺ inside
  pub single : Lacks "</entry>" entry
  pub front : String
  pub back : String
  pub marked : entry ≡ front ⧺ (marker ⧺ back)
  pub read : meta ≡ meta_of entry

-- Entries in which the mark does not stand, and behind them none, or one that is not closed.
pub data NoEntry (marker : String) : String → Type 0 where
  no_entry : {feed : String} → Lacks "<entry>" feed → NoEntry marker feed
  unclosed :
      {feed : String} (before body : String)
      → feed ≡ before ⧺ ("<entry>" ⧺ body)
      → Lacks "</entry>" ("<entry>" ⧺ body)
      → NoEntry marker feed
  passed :
      {feed : String} (before entry behind : String)
      → feed ≡ before ⧺ (entry ⧺ ("</entry>" ⧺ behind))
      → Lacks marker entry
      → NoEntry marker behind
      → NoEntry marker feed

abbrev pub OfFeed : String → String → Option ReleaseMeta → Type 0
OfFeed marker feed none = NoEntry marker feed
OfFeed marker feed (some meta) = HasEntry marker feed meta

nested_lem :
    (before entry behind middle rest : String)
    → behind ≡ middle ⧺ rest
    → before ⧺ (entry ⧺ ("</entry>" ⧺ behind)) ≡ (before ⧺ (entry ⧺ ("</entry>" ⧺ middle))) ⧺ rest
nested_lem before entry behind middle rest e = rw (e, append_assoc, append_assoc, append_assoc) refl

lacked :
    (entry marker : String) → is_some (cut_at entry marker) ≡ false → cut_at entry marker ≡ none
lacked entry marker h = elim (Option-cases (cut_at entry marker)) [
  | inl missing ↦ missing
  | inr (found, is) ↦ cc (rw is at h)
]

tag_letters :
    (body : String)
    → cut_at ("<" ∷ "e" ∷ "n" ∷ "t" ∷ "r" ∷ "y" ∷ ">" ∷ body) "</entry>"
      ≡ push_pair "<" (
          push_pair "e" (
            push_pair "n" (
              push_pair "t"
                (push_pair "r" (push_pair "y" (push_pair ">" (cut_at body "</entry>")))))))
unfolding cut_at strip_prefix
tag_letters body = refl

spelled : (s : String) → "<entry>" ⧺ s ≡ "<" ∷ "e" ∷ "n" ∷ "t" ∷ "r" ∷ "y" ∷ ">" ∷ s
spelled s =
    cons-append "<" "entry>" s
    ∙ ap (λ t. "<" ∷ t)
        (cons-append "e" "ntry>" s
          ∙ ap (λ t. "e" ∷ t)
              (cons-append "n" "try>" s
                ∙ ap (λ t. "n" ∷ t)
                    (cons-append "t" "ry>" s
                      ∙ ap (λ t. "t" ∷ t)
                          (cons-append "r" "y>" s
                            ∙ ap (λ t. "r" ∷ t)
                                (cons-append "y" ">" s
                                  ∙ ap (λ t. "y" ∷ t)
                                      (cons-append ">" "" s ∙ ap (λ t. ">" ∷ t) (nil-append s)))))))

-- An entry opens with its tag.
entry-tagged :
    (body entry behind : String)
    → cut_at ("<entry>" ⧺ body) "</entry>" ≡ some (entry, behind)
    → (inside : String) × (entry ≡ "<entry>" ⧺ inside)
entry-tagged body entry behind h =
    let pushed = sym (tag_letters body) ∙ ap (λ s. cut_at s "</entry>") (sym (spelled body)) ∙ h in
    let (a, ha, ea) = push_pair-some "<" _ entry behind pushed in
    let (b, hb, eb) = push_pair-some "e" _ a behind ha in
    let (c, hc, ec) = push_pair-some "n" _ b behind hb in
    let (d, hd, ed) = push_pair-some "t" _ c behind hc in
    let (e, he, ee) = push_pair-some "r" _ d behind hd in
    let (f, hf, ef) = push_pair-some "y" _ e behind he in
    let (g, hg, eg) = push_pair-some ">" _ f behind hf in
    (g, cc (ea, eb, ec, ed, ee, ef, eg, spelled g))

-- One turn of the search.
module _ (marker feed before body entry behind : String)
    (opens : cut_at feed "<entry>" ≡ some (before, body))
    (closes : cut_at ("<entry>" ⧺ body) "</entry>" ≡ some (entry, behind)) where
  feed-entry : feed ≡ before ⧺ (entry ⧺ ("</entry>" ⧺ behind))
  feed-entry =
      cut_at-some feed "<entry>" before body opens
      ∙ ap (λ t. before ⧺ t) (cut_at-some ("<entry>" ⧺ body) "</entry>" entry behind closes)

  entry-single : Lacks "</entry>" entry
  entry-single x y e =
      cut_at-first ("<entry>" ⧺ body) "</entry>" entry behind x y (omega arith) closes e

  behind-shorter : count behind < count feed
  behind-shorter = omega (
    arith,
    ap count feed-entry,
    length-append before (entry ⧺ ("</entry>" ⧺ behind)),
    length-append entry ("</entry>" ⧺ behind),
    length-append "</entry>" behind,
  )

  find_entry-turn :
      (fuel : ℕ)
      → find_entry marker (suc fuel) feed ≡ (
          if is_some (cut_at entry marker)
          then some (some (meta_of entry))
          else find_entry marker fuel behind)
  unfolding find_entry
  find_entry-turn fuel = rw (opens, closes, find_entry) refl

  here-entry : is_some (cut_at entry marker) ≡ true → HasEntry marker feed (meta_of entry)
  here-entry marked = elim (Option-cases (cut_at entry marker)) [
    | inl missing ↦ cc (rw missing at marked)
    | inr ((front, back), found) ↦ record {
      before = before;
      entry = entry;
      behind = behind;
      stands = feed-entry;
      inside = (entry-tagged body entry behind closes).0;
      tagged = (entry-tagged body entry behind closes).1;
      single = entry-single;
      front = front;
      back = back;
      marked = cut_at-some entry marker front back found;
      read = refl;
    }
  ]

  -- An entry that stands behind this one stands in the feed.
  later-entry : (meta : ReleaseMeta) → HasEntry marker behind meta → HasEntry marker feed meta
  later-entry meta found = record {
    before = before ⧺ (entry ⧺ ("</entry>" ⧺ found.before));
    entry = found.entry;
    behind = found.behind;
    stands =
        feed-entry
        ∙ nested_lem before entry behind found.before (found.entry ⧺ ("</entry>" ⧺ found.behind))
            found.stands;
    inside = found.inside;
    tagged = found.tagged;
    single = found.single;
    front = found.front;
    back = found.back;
    marked = found.marked;
    read = found.read;
  }

  later-OfFeed :
      cut_at entry marker ≡ none
      → (r : Option ReleaseMeta) → OfFeed marker behind r
      → OfFeed marker feed r
  later-OfFeed other none h =
      passed before entry behind feed-entry (cut_at-Lacks entry marker other) h
  later-OfFeed other (some meta) h = later-entry meta h

find_entry_ends :
    (marker : String) (fuel : ℕ) (feed : String)
    → count feed < fuel
    → (r : Option ReleaseMeta) × (find_entry marker fuel feed ≡ some r) × OfFeed marker feed r
unfolding find_entry
find_entry_ends marker zero feed enough = let never : ⊥ = omega arith in absurd never
find_entry_ends marker (suc fuel) feed enough = elim (Option-cases (cut_at feed "<entry>")) [
  | inl missing ↦
      (none, rw (missing, find_entry) refl, no_entry (cut_at-Lacks feed "<entry>" missing))
  | inr ((before, body), opens) ↦ elim (Option-cases (cut_at ("<entry>" ⧺ body) "</entry>")) [
    | inl missing ↦ (
      none,
      rw (opens, missing, find_entry) refl,
      unclosed before body (cut_at-some feed "<entry>" before body opens)
          (cut_at-Lacks ("<entry>" ⧺ body) "</entry>" missing),
    )
    | inr ((entry, behind), closes) ↦
        let shorter = behind-shorter marker feed before body entry behind opens closes in
        let turn = find_entry-turn marker feed before body entry behind opens closes fuel in
        elim (Bool-cases (is_some (cut_at entry marker))) [
          | inl here ↦ (
            some (meta_of entry),
            turn ∙ rw here refl,
            here-entry marker feed before body entry behind opens closes here,
          )
          | inr other ↦
              let (r, found, ofs) = find_entry_ends marker fuel behind (omega arith) in
              (
                r,
                turn ∙ (rw other found),
                later-OfFeed marker feed before body entry behind opens closes
                    (lacked entry marker other) r ofs,
              )
        ]
  ]
]

-- The search ends for every feed. A name and a time that it gives are the decoded texts of one entry
-- of the feed, which stands in front of a closing tag and has the end of a link to the page of the tag. Where it gives nothing, such an end stands in no entry up to
-- one that is not closed, or to the end.
pub parse_release_atom_meta-OfFeed :
    (atom tag : String)
    → (r : Option ReleaseMeta) × (parse_release_atom_meta atom tag ≡ some r)
      × OfFeed (href_marker tag) atom r
unfolding parse_release_atom_meta
parse_release_atom_meta-OfFeed atom tag =
    find_entry_ends (href_marker tag) (suc (count atom)) atom (omega arith)
