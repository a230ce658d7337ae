-- ===== src/Fediverse/Mastodon.antt =====
-- adapters/fediverse/mastodon.go: posts, and the client of an instance.
pub mod Posts
use openussd.Prelude.{
  ℕ, ◌*◌, ◌≡◌, Bool, true, false, not, ◌&&◌, Option, none, some, List, [], ◌∷◌, ◌++◌, ◌==◌,
  if◌then◌else◌, map, take, Result, ok, err, map_err, ◌>>=◌, ◌>>◌,
}
use openussd.Strings.{Text, codes, is_empty, trim_space, has_prefix}
use openussd.Strconv.{print_nat}
use openussd.Fediverse.Plain.{
  strip_html, cap_bytes, max_post_bytes, humanise_time, printable, api_error,
}

pub record Post : Type 0 where
  pub author : Text
  pub text : Text
  pub when : Text

pub record Attachment : Type 0 where
  pub kind : Text
  pub description : Text

pub record Status : Type 0 where
  pub content : Text
  pub created_at : Text
  pub acct : Text
  pub display_name : Text
  pub attachments : List Attachment

-- `apiStatus`: a status, and what it boosts if its `Reblog` is not nil.
pub data ApiStatus : Type 0 where
  original : Status → ApiStatus
  boost : Status → ApiStatus → ApiStatus

abbrev pub own : ApiStatus → Status
own (original s) = s
own (boost s reblogged) = s

-- What the status shows: itself, or what it boosts.
abbrev pub body_of : ApiStatus → Status
body_of (original s) = s
body_of (boost s reblogged) = own reblogged

abbrev pub prefix_of : ApiStatus → Text
prefix_of (original s) = []
prefix_of (boost s reblogged) = codes "RT @" ++ ((own reblogged).acct ++ codes ": ")

-- The loop over the attachments.
unfoldable pub describe : Text → List Attachment → Text
unfolding trim_space
describe text [] = text
describe text (att ∷ attachments) =
    let given = trim_space att.description in
    let desc = if is_empty given then codes "no description" else given in
    describe (text ++ (codes " [" ++ (att.kind ++ (codes ": " ++ (desc ++ codes "]"))))) attachments

-- `html.UnescapeString` and `time.Parse`, and the time.
pub record Reading : Type 0 where
  pub unescape : Text → Text
  pub parse_time : Text → Option ℕ
  pub now : ℕ

unfoldable pub to_post : Reading → ApiStatus → Post
unfolding describe trim_space cap_bytes strip_html humanise_time
to_post r s =
    let body = body_of s in
    let author =
      if is_empty (trim_space (own s).display_name) then (own s).acct else (own s).display_name in
    record {
      author = trim_space author;
      text =
          cap_bytes
            (trim_space
              (describe (prefix_of s ++ strip_html r.unescape body.content) body.attachments))
            max_post_bytes;
      when = humanise_time r.parse_time r.now (own s).created_at;
    }

-- The answer of an instance; `host` is that of the request which was answered in the end.
pub record Answer : Type 0 where
  pub status : ℕ
  pub host : Option Text
  pub bytes : Text

-- `net/url`, `net/http` and JSON. `host_of` is the host of a URL.
pub record Web : Type 1 where
  pub Url : Type 0
  pub parse_url : Text → Option Url
  pub with_query : Url → List (Text × Text) → Url
  pub host_of : Url → Text
  pub fetch : Url → Option Answer
  pub status_text : ℕ → Text
  pub is_print : ℕ → Bool
  pub decode_statuses : Text → Option (List ApiStatus)
  pub decode_error : Text → Option Text

pub data TimelineError : Type 0 where
  bad_instance unreachable undecodable : TimelineError
  requires_sign_in replied : Text → Text → TimelineError
  replied_because : Text → Text → Text → TimelineError

-- `strings.TrimRight(m.Instance, "/")`
unfoldable pub trim_slashes : Text → Text
trim_slashes [] = []
trim_slashes (c ∷ s) =
    let rest = trim_slashes s in if c == b'/' && is_empty rest then [] else c ∷ rest

-- `strings.Contains`
unfoldable pub contains : Text → Text → Bool
unfolding has_prefix
contains [] sub = is_empty sub
contains (c ∷ s) sub = let rest = contains s sub in if has_prefix (c ∷ s) sub then true else rest

module _ (web : Web) (r : Reading) where
  -- The status line and the reason of an answer that is not 200.
  unfoldable pub refusal : web.Url → Answer → TimelineError
  unfolding printable api_error print_nat contains
  refusal endpoint answer =
      let host =
        printable web.is_print (elim answer.host [ none ↦ web.host_of endpoint | some h ↦ h ]) in
      let phrase = web.status_text answer.status in
      let status =
        print_nat answer.status ++ (if is_empty phrase then [] else codes " " ++ phrase) in
      let reason = api_error web.is_print (web.decode_error (take (4 * 1_024) answer.bytes)) in
      if contains reason (codes "requires an authenticated user")
      then requires_sign_in host status
      else if not (is_empty reason)
      then replied_because host status reason
      else replied host status

  -- What is made of the answer, or of none.
  unfoldable pub read_answer : web.Url → Option Answer → Result TimelineError (List Post)
  unfolding refusal to_post
  read_answer endpoint none = err unreachable
  read_answer endpoint (some answer) =
      if not (answer.status == 200)
      then err (refusal endpoint answer)
      else elim (web.decode_statuses (take (4 * 1_048_576) answer.bytes)) [
        | none ↦ err undecodable
        | some statuses ↦ ok (map (to_post r) statuses)
      ]

  unfoldable pub public_timeline : Text → ℕ → Result TimelineError (List Post)
  unfolding read_answer trim_slashes print_nat
  public_timeline instance_url limit =
      elim (web.parse_url (trim_slashes instance_url ++ codes "/api/v1/timelines/public")) [
        | none ↦ err bad_instance
        | some url ↦
            let endpoint =
              web.with_query url
                ((codes "limit", print_nat limit) ∷ (codes "local", codes "true") ∷ []) in
            read_answer endpoint (web.fetch endpoint)
      ]
