-- ===== src/Chain/Carried.antt =====
-- A chain that carries something beside its world, which no call changes. A chain that records some of
-- its calls is made of it.
use stablecoin_mmm.Base.Act.{Act, Outcome}
use stablecoin_mmm.Chain.{Chain}

abbrev pub kept : {W A L : Type 0} → L → Outcome A × W → Outcome A × (W × L)
kept l (o, w) = (o, (w, l))

abbrev pub lift : {W A L : Type 0} → Act W A → Act (W × L) A
lift m (w, l) = kept l (m w)

abbrev pub carrying : {W L : Type 0} → Chain W → Chain (W × L)
carrying ch = record {
  hex_to_address = ch.hex_to_address;
  now = λ s. ((ch.now s.0).0, ((ch.now s.0).1, s.1));
  sleep = λ d s. (ch.sleep d s.0, s.1);
  dial = λ url. lift (ch.dial url);
  hex_to_ecdsa = λ text. lift (ch.hex_to_ecdsa text);
  pubkey_to_address = ch.pubkey_to_address;
  new_binding = λ binding a. lift (ch.new_binding binding a);
  parse_abi = lift ch.parse_abi;
  pack = λ method. lift (ch.pack method);
  call_contract = λ to payload. lift (ch.call_contract to payload);
  balance_at = λ a. lift (ch.balance_at a);
  pending_nonce_at = λ a. lift (ch.pending_nonce_at a);
  suggest_gas_price = lift ch.suggest_gas_price;
  sign_tx = λ tx chain_id key. lift (ch.sign_tx tx chain_id key);
  send_transaction = λ tx. lift (ch.send_transaction tx);
  transaction_receipt = λ tx. lift (ch.transaction_receipt tx);
  wait_mined = λ tx. lift (ch.wait_mined tx);
  new_transactor = λ key chain_id. lift (ch.new_transactor key chain_id);
  factory_get_pool = λ a b fee. lift (ch.factory_get_pool a b fee);
  factory_create_pool = λ auth a b fee. lift (ch.factory_create_pool auth a b fee);
  manager_mint = λ auth params. lift (ch.manager_mint auth params);
  router_exact_input_single = λ auth params. lift (ch.router_exact_input_single auth params);
  quoter_quote = λ a b fee amount limit. lift (ch.quoter_quote a b fee amount limit);
  pool_liquidity = lift ch.pool_liquidity;
  pool_slot0 = lift ch.pool_slot0;
}
