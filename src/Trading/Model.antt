-- ===== src/Trading/Model.antt =====
-- The data of openpine/orders/models.py and openpine/accounts/models.py. Python's floats are an
-- abstract type `F`; what the source renders into a message is kept as data.
use openpine.Base.{Option, Bool, String, ℕ}

pub data OrderSide : Type 0 where
  buy sell : OrderSide

pub data OrderType : Type 0 where
  market limit stop stop_limit : OrderType

pub data OrderStatus : Type 0 where
  pending new filled partial cancelled rejected : OrderStatus

pub data AccountType : Type 0 where
  live paper backtest : AccountType

pub record Account : Type 0 where
  pub account_id : String
  pub name : String
  pub provider : String
  pub exchange : String
  pub market_type : String
  pub mode : AccountType
  pub live_enabled : Bool
  pub api_key_ref : Option String
  pub api_secret_ref : Option String
  pub permissions : Option String
  pub api_key_hash : Option String
  pub config : String
  pub created_at : ℕ
  pub updated_at : ℕ

module _ (F : Type 0) where
  -- an error text of a risk rule or of the router
  pub data Message : Type 0 where
    kill_switch_active : Message
    notional_exceeds : F → F → Message
    rate_exceeded : String → ℕ → Message
    blocked_by_rule : Message
    blocked_order : Message
    account_not_found : String → Message
    no_adapter : AccountType → Message
    adapter_error : String → Message
    text : String → Message

  pub record OrderIntent : Type 0 where
    pub client_order_id : String
    pub strategy_id : String
    pub account_id : String
    pub symbol : String
    pub side : OrderSide
    pub order_type : OrderType
    pub quantity : F
    pub price : Option F
    pub stop_price : Option F
    pub created_at : ℕ

  pub record Order : Type 0 where
    pub order_id : String
    pub client_order_id : String
    pub strategy_id : String
    pub account_id : String
    pub symbol : String
    pub side : OrderSide
    pub order_type : OrderType
    pub quantity : F
    pub price : Option F
    pub stop_price : Option F
    pub status : OrderStatus
    pub filled_quantity : F
    pub avg_fill_price : Option F
    pub created_at : ℕ
    pub updated_at : ℕ
    pub error : Option Message

-- the operations on floats that the source uses
pub record Floats (F : Type 0) : Type 0 where
  pub zero : F
  pub mul : F → F → F
  pub lt : F → F → Bool
