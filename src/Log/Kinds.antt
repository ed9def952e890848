-- ===== src/Log/Kinds.antt =====
-- The kinds of records (apps/api/internal/store/store.go) that compaction or replaying names.
use stockastic.Prelude.Str.{Str, codes}

abbrev pub user : Str
user = codes "user"

abbrev pub trade : Str
trade = codes "trade"

abbrev pub clock : Str
clock = codes "clock"

abbrev pub news : Str
news = codes "news"

abbrev pub ticket : Str
ticket = codes "ticket"

abbrev pub pause : Str
pause = codes "pause"

abbrev pub prices : Str
prices = codes "prices"

abbrev pub setting : Str
setting = codes "setting"

abbrev pub member : Str
member = codes "member"

abbrev pub watch : Str
watch = codes "watch"
