-- ===== src/Examples/Posts.antt =====
-- Posts of an instance that answers.
use openussd.Prelude.{◌≡◌, refl, true, none, some, List, [], ◌∷◌, ok}
use openussd.Strings.{Text, codes, byte_len}
use openussd.Fediverse.Mastodon.{Post, Status, original, Reading, Web, public_timeline}
use openussd.Fediverse.Mastodon.Posts.{IsTimeline, public_timeline-IsTimeline}

-- The readings of a server on which nothing is escaped and no time is read.
abbrev plainly : Reading
plainly = record { unescape = λ s. s; parse_time = λ s. none; now = 0 }

abbrev greeting : Status
greeting = record {
  content = codes "<p>Jambo</p>";
  created_at = [];
  acct = codes "ann";
  display_name = codes "Ann";
  attachments = [];
}

-- An instance that answers every request with one status.
abbrev instance_web : Web
instance_web = record {
  Url = Text;
  parse_url = λ s. some s;
  with_query = λ url query. url;
  host_of = λ url. url;
  fetch = λ url. some (record { status = 200; host = none; bytes = [] });
  status_text = λ n. [];
  is_print = λ c. true;
  decode_statuses = λ bytes. some (original greeting ∷ []);
  decode_error = λ bytes. none;
}

abbrev served_posts : List Post
served_posts = record { author = codes "Ann"; text = codes "Jambo"; when = [] } ∷ []

served : public_timeline instance_web plainly (codes "https://m.test/") 10 ≡ ok served_posts
unfolding public_timeline byte_len
served = refl

public_timeline-IsTimeline_example :
    IsTimeline instance_web plainly (codes "https://m.test/") 10 served_posts
public_timeline-IsTimeline_example =
    public_timeline-IsTimeline instance_web plainly (codes "https://m.test/") 10 served_posts served
