-- ===== src/Fediverse/Mastodon/Posts.antt =====
-- mastodon.go: how large a post is, and what a timeline is made of.
use openussd.Prelude.{
  false, ◌&&◌, ◌≢◌, Bool-cases, ==→eq, ℕ, zero, suc, ◌*◌, ◌++◌, sym, subst, if_err-eq-ok, ◌≤◌, ◌≡◌,
  refl, ◌∙◌, ap, inl, inr, Option, none, some, List, [], ◌∷◌, ◌==◌, not, map, take, replicate,
  arith, All, ok, Option-cases,
}
use openussd.Strings.Equal.{is_empty_sound}
use openussd.Strings.{Text, codes, byte_len, is_empty, is_space, trim_left, trim_right, trim_space}
use openussd.Strconv.{print_nat}
use openussd.Tenant.Router.Table.{ok-injective}
use openussd.Fediverse.Plain.{max_post_bytes}
use openussd.Fediverse.Plain.Cap.{cap_bytes_bound}
use openussd.Fediverse.Mastodon.{
  Post, Status, ApiStatus, original, Reading, to_post, Web, Answer, read_answer, trim_slashes,
  public_timeline,
}

to_post-bytes : (r : Reading) (s : ApiStatus) → byte_len (to_post r s).text ≤ max_post_bytes
unfolding to_post
to_post-bytes r s = (cap_bytes_bound _ max_post_bytes (omega arith)).0

to_post-All :
    (r : Reading) (statuses : List ApiStatus)
    → All (λ (p : Post). byte_len p.text ≤ max_post_bytes) (map (to_post r) statuses)
to_post-All r [] = tt
to_post-All r (s ∷ statuses) = (to_post-bytes r s, to_post-All r statuses)

-- The address of an instance without the slashes at its end.
pub record IsBase (instance_url base : Text) : Type 0 where
  pub slashes : ℕ
  pub whole : instance_url ≡ base ++ replicate slashes b'/'
  pub bare : (front : Text) → base ≢ front ++ b'/' ∷ []

nil_bare : (front : Text) → [] ≢ front ++ b'/' ∷ []
nil_bare [] e = absurd (ground arith)
nil_bare (f ∷ front) e = absurd (ground arith)

ends_bare :
    (c : ℕ) (rest : Text)
    → c == b'/' && is_empty rest ≡ false
    → ((front : Text) → rest ≢ front ++ b'/' ∷ [])
    → (front : Text) → c ∷ rest ≢ front ++ b'/' ∷ []
ends_bare c [] other bare [] e = absurd (ground arith)
ends_bare c (d ∷ rest) other bare [] e = absurd (ground arith)
ends_bare c rest other bare (f ∷ front) e = bare front (ground arith)

trim_slashes-IsBase : (s : Text) → IsBase s (trim_slashes s)
unfolding trim_slashes
trim_slashes-IsBase [] = record { slashes = 0; whole = refl; bare = nil_bare }
trim_slashes-IsBase (c ∷ s) =
    let rest = trim_slashes-IsBase s in
    elim (Bool-cases (c == b'/' && is_empty (trim_slashes s))) [
      | inl slash ↦
          let none_left = is_empty_sound (trim_slashes s) (ground (arith, slash)) in
          let this : c ≡ b'/' = ==→eq c b'/' (ground (arith, slash)) in
          rw slash (record {
            slashes = suc rest.slashes;
            whole =
                ap (λ d. d ∷ s) this
                ∙ ap (λ t. b'/' ∷ t)
                    (rest.whole ∙ ap (λ t. t ++ replicate rest.slashes b'/') none_left);
            bare = nil_bare;
          })
      | inr other ↦ rw other (record {
        slashes = rest.slashes;
        whole = ap (λ t. c ∷ t) rest.whole;
        bare = ends_bare c (trim_slashes s) other rest.bare;
      })
    ]

-- A timeline as an instance sent it: the answer to one request for its public timeline, a post for
-- each status of it, and no text has more than 900 bytes.
pub record IsTimeline (web : Web) (r : Reading) (instance_url : Text) (limit : ℕ)
    (posts : List Post) : Type 0 where
  pub base : Text
  pub url : web.Url
  pub answer : Answer
  pub statuses : List ApiStatus
  pub trimmed : IsBase instance_url base
  pub parsed : web.parse_url (base ++ codes "/api/v1/timelines/public") ≡ some url
  pub fetched :
      web.fetch
        (web.with_query url ((codes "limit", print_nat limit) ∷ (codes "local", codes "true") ∷ []))
      ≡ some answer
  pub fine : answer.status ≡ 200
  pub decoded : web.decode_statuses (take 4_194_304 answer.bytes) ≡ some statuses
  pub each : posts ≡ map (to_post r) statuses
  pub bounded : All (λ (p : Post). byte_len p.text ≤ 900) posts

-- An answer with status 200 whose first 4 MiB decode to the statuses of the posts.
pub record IsAnswered (web : Web) (r : Reading) (fetched : Option Answer) (posts : List Post)
    : Type 0 where
  pub answer : Answer
  pub statuses : List ApiStatus
  pub there : fetched ≡ some answer
  pub fine : answer.status ≡ 200
  pub decoded : web.decode_statuses (take 4_194_304 answer.bytes) ≡ some statuses
  pub each : posts ≡ map (to_post r) statuses

read_answer-IsAnswered :
    (web : Web) (r : Reading) (endpoint : web.Url) (fetched : Option Answer) (posts : List Post)
    → read_answer web r endpoint fetched ≡ ok posts
    → IsAnswered web r fetched posts
unfolding read_answer
read_answer-IsAnswered web r endpoint none posts h = absurd (ground arith)
read_answer-IsAnswered web r endpoint (some answer) posts h =
    let (fine, h1) = if_err-eq-ok (not (answer.status == 200)) _ _ h in
    elim (Option-cases (web.decode_statuses (take (4 * 1_048_576) answer.bytes))) [
      | inl bad ↦ absurd (ground arith)
      | inr (statuses, decoded) ↦ record {
        answer = answer;
        statuses = statuses;
        there = refl;
        fine = ground arith;
        decoded = decoded;
        each = sym (ok-injective (rw decoded at h1));
      }
    ]

-- A timeline that `PublicTimeline` returns is one post for each status that the instance sent, and
-- no text has more than 900 bytes: the statuses are decoded from the first 4 MiB of an answer with
-- status 200 to a request for /api/v1/timelines/public below the instance's address, without the
-- slashes at its end, with the limit and for local posts.
pub public_timeline-IsTimeline :
    (web : Web) (r : Reading) (instance_url : Text) (limit : ℕ) (posts : List Post)
    → public_timeline web r instance_url limit ≡ ok posts
    → IsTimeline web r instance_url limit posts
unfolding public_timeline
public_timeline-IsTimeline web r instance_url limit posts h =
    elim (Option-cases
      (web.parse_url (trim_slashes instance_url ++ codes "/api/v1/timelines/public"))) [
        | inl bad ↦ absurd (ground arith)
        | inr (url, parsed) ↦
            let endpoint =
              web.with_query url
                ((codes "limit", print_nat limit) ∷ (codes "local", codes "true") ∷ []) in
            let a =
              read_answer-IsAnswered web r endpoint (web.fetch endpoint) posts
                (rw (parsed, public_timeline) at h) in
            record {
              base = trim_slashes instance_url;
              url = url;
              answer = a.answer;
              statuses = a.statuses;
              trimmed = trim_slashes-IsBase instance_url;
              parsed = parsed;
              fetched = a.there;
              fine = a.fine;
              decoded = a.decoded;
              each = a.each;
              bounded =
                  subst (All (λ (p : Post). byte_len p.text ≤ max_post_bytes)) (sym a.each)
                    (to_post-All r a.statuses);
            }
      ]

abbrev plain : ℕ → Status
plain n = record {
  content = [];
  created_at = [];
  acct = [];
  display_name = replicate n b'a';
  attachments = [];
}

trim_right-replicate : (n : ℕ) → trim_right (replicate n b'a') ≡ replicate n b'a'
unfolding trim_right is_space
trim_right-replicate zero = refl
trim_right-replicate (suc n) = ap (λ t. b'a' ∷ t) (trim_right-replicate n)

byte_len-replicate : (n : ℕ) → byte_len (replicate n b'a') ≡ n
unfolding byte_len
byte_len-replicate zero = refl
byte_len-replicate (suc n) = omega (arith, byte_len-replicate n)

to_post-author :
    (r : Reading) (n : ℕ) → (to_post r (original (plain (suc n)))).author ≡ replicate (suc n) b'a'
unfolding to_post trim_space trim_left trim_right is_space
to_post-author r n = ap (λ t. b'a' ∷ t) (trim_right-replicate n)

-- What a post adds to the session state has no bound: for every number of bytes there is a status
-- whose post has an author of that many and one more.
to_post_unbounded :
    (r : Reading) (n : ℕ) → (s : ApiStatus) × (byte_len (to_post r s).author ≡ suc n)
to_post_unbounded r n =
    (original (plain (suc n)), ap byte_len (to_post-author r n) ∙ byte_len-replicate (suc n))
