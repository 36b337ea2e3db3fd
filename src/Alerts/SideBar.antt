-- ===== src/Alerts/SideBar.antt =====
-- The actions of a single row of nvAlertListController.js, and the side bar that shows one alert.
use neural_vyuha_prime.Common.{
  String, Bool, true, false, not, Option, none, some, List, [], ◌∷◌, map, ◌==◌, ◌≡◌, refl,
  if◌then◌else◌,
}
use neural_vyuha_prime.Alerts.{Alert, AlertList, AlertRequest, key, refresh}

-- The title of the case that a promotion makes is left out.
pub data RowRequest : Type 0 where
  set_read : String → Bool → RowRequest
  set_follow : String → Bool → RowRequest
  delete_one : String → RowRequest
  promote_one : String → RowRequest
  get_iocs : String → RowRequest
  get_similar : String → RowRequest

-- `toggleRead` and `toggleFollow`, with what is asked for; the answers set just that.
unfoldable pub toggle_row_read : Alert → List RowRequest
toggle_row_read a = set_read (key a) (not a.read) ∷ []

unfoldable pub on_row_read : Alert → Bool → AlertList → AlertList
on_row_read a asked vm = record vm {
  alerts = map (λ (b : Alert). if key b == key a then record b { read = asked } else b) vm.alerts;
}

unfoldable pub toggle_row_follow : Alert → List RowRequest
toggle_row_follow a = set_follow (key a) (not a.follow) ∷ []

unfoldable pub on_row_follow : Alert → Bool → AlertList → AlertList
on_row_follow a asked vm = record vm {
  alerts = map (λ (b : Alert). if key b == key a then record b { follow = asked } else b) vm.alerts;
}

unfoldable pub delete_alert : Alert → List RowRequest
delete_alert a = delete_one (key a) ∷ []

unfoldable pub promote_alert : Alert → List RowRequest
promote_alert a = promote_one (key a) ∷ []

-- The answers to both.
unfoldable pub on_row_gone : AlertList → AlertList × List AlertRequest
unfolding refresh
on_row_gone vm = refresh vm

pub record SideBar : Type 0 where
  pub alert : Option Alert
  pub is_open : Bool
  pub loading : Bool
  pub tab : String
  pub iocs : Option (List String)
  pub similar : Option (List String)

unfoldable pub open_side_bar : Alert → SideBar → SideBar × List RowRequest
open_side_bar a s = (
  record {
    alert = some a;
    is_open = true;
    loading = true;
    tab = "details";
    iocs = none;
    similar = none;
  },
  get_iocs (key a) ∷ get_similar (key a) ∷ [],
)

-- The answers to both requests, and the failure of one of them.
unfoldable pub on_side_bar : List String → List String → SideBar → SideBar
on_side_bar found like s = record s { iocs = some found; similar = some like; loading = false }

unfoldable pub on_side_bar_error : SideBar → SideBar
on_side_bar_error s = record s { loading = false }

unfoldable pub close_side_bar : SideBar → SideBar
close_side_bar s = record s { is_open = false; alert = none }

unfoldable pub set_side_bar_tab : String → SideBar → SideBar
set_side_bar_tab tab s = record s { tab = tab }

-- Where the answers for a first alert come after those for a second one, the bar shows the second
-- alert with what was found for the first.
pub open_side_bar-mixed :
    (a b : Alert) (found_a like_a found_b like_b : List String) (s : SideBar)
    → let opened = (open_side_bar b (open_side_bar a s).0).0 in
      let shown = on_side_bar found_a like_a (on_side_bar found_b like_b opened) in
      (shown.alert ≡ some b) × (shown.iocs ≡ some found_a) × (shown.similar ≡ some like_a)
unfolding open_side_bar on_side_bar
open_side_bar-mixed a b found_a like_a found_b like_b s = (refl, refl, refl)
