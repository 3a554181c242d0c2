-- ===== src/Assets.antt =====
-- assets.py: the registry of the assets that the forecast loop knows.
use paper_forecast_loop.Prelude.{
  String, Option, none, some, List, [], ◌∷◌, ◌==◌, if◌then◌else◌, find?, keep,
}
use paper_forecast_loop.Prelude.Text.{upper}

pub record Asset : Type 0 where
  pub symbol : String
  pub name : String
  pub asset_class : String
  pub market : String
  pub quote_currency : String
  pub timezone : String
  pub status : String
  pub default_provider : Option String
  pub data_status : String
  pub notes : String

abbrev pub asset_registry : List Asset
asset_registry =
    record {
      symbol = "BTC-USD";
      name = "Bitcoin / US Dollar";
      asset_class = "crypto";
      market = "global_crypto";
      quote_currency = "USD";
      timezone = "UTC";
      status = "active";
      default_provider = some "coingecko";
      data_status = "public_hourly_available";
      notes = "Primary paper-only research symbol.";
    }
    ∷ record {
      symbol = "ETH-USD";
      name = "Ethereum / US Dollar";
      asset_class = "crypto";
      market = "global_crypto";
      quote_currency = "USD";
      timezone = "UTC";
      status = "active";
      default_provider = some "coingecko";
      data_status = "public_hourly_available";
      notes =
          "Data provider mapping exists; automation remains BTC-first until multi-asset stages.";
    }
    ∷ record {
      symbol = "SPY";
      name = "SPDR S&P 500 ETF Trust";
      asset_class = "etf";
      market = "US";
      quote_currency = "USD";
      timezone = "America/New_York";
      status = "planned";
      default_provider = some "csv-fixture";
      data_status = "fixture_provider_available";
      notes =
          "M3D supports CSV fixture import with US market calendar and adjusted close handling.";
    }
    ∷ record {
      symbol = "QQQ";
      name = "Invesco QQQ Trust";
      asset_class = "etf";
      market = "US";
      quote_currency = "USD";
      timezone = "America/New_York";
      status = "planned";
      default_provider = some "csv-fixture";
      data_status = "fixture_provider_available";
      notes =
          "M3D supports CSV fixture import with US market calendar and adjusted close handling.";
    }
    ∷ record {
      symbol = "TLT";
      name = "iShares 20+ Year Treasury Bond ETF";
      asset_class = "etf";
      market = "US";
      quote_currency = "USD";
      timezone = "America/New_York";
      status = "planned";
      default_provider = some "csv-fixture";
      data_status = "fixture_provider_available";
      notes =
          "M3D supports CSV fixture import with US market calendar and adjusted close handling.";
    }
    ∷ record {
      symbol = "GLD";
      name = "SPDR Gold Shares";
      asset_class = "etf";
      market = "US";
      quote_currency = "USD";
      timezone = "America/New_York";
      status = "planned";
      default_provider = some "csv-fixture";
      data_status = "fixture_provider_available";
      notes =
          "M3D supports CSV fixture import with US market calendar and adjusted close handling.";
    }
    ∷ record {
      symbol = "0050.TW";
      name = "Yuanta Taiwan Top 50 ETF";
      asset_class = "etf";
      market = "TW";
      quote_currency = "TWD";
      timezone = "Asia/Taipei";
      status = "inactive";
      default_provider = none;
      data_status = "provider_pending";
      notes =
          "Tracked for future Taiwan ETF research; inactive until calendar and provider support exist.";
    }
    ∷ []

unfoldable pub list_assets : String → List Asset
list_assets status =
    if status == "all"
    then asset_registry
    else keep (λ asset. asset.status == status) asset_registry

unfoldable pub get_asset : String → Option Asset
get_asset symbol =
    let normalized = upper symbol in find? (λ asset. asset.symbol == normalized) asset_registry
