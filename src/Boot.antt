-- ===== src/Boot.antt =====
-- The start of the firmware: src/main.rs, src/led/led.rs, `SpiLink::init` of
-- src/spi_link/transport.rs and src/spi_link/task.rs. The SPI driver and FreeRTOS enter as the
-- record `Peripherals`.
pub mod Established
pub mod Quiet
pub mod GivenUp
pub mod Watchdog
use bindkey_esp.Base.{ℕ, zero, suc, true, none, some, Option, ◌==◌, Result, ok, err, fail}
use bindkey_esp.Base.Action.{Act, pure, throw, guard, modify, ◌>>=◌, ◌>>◌}
use bindkey_esp.MassStorage.Types.{
  Board, Effect, gpio_reset, gpio_output, gpio_level, Sys, set_usb, call, effect, new_mass_storage,
}
use bindkey_esp.MassStorage.Driver.{
  tps_new, set_global_tps, set_global_mass_storage, init_host, poll,
}
use bindkey_esp.SpiLink.Link.{rx_len, pin_ready, LinkSt, new_link}

-- `LED_GPIO`
abbrev pub led_gpio : ℕ
led_gpio = 8

-- `PIN_MOSI`, `PIN_MISO`, `PIN_SCLK` and `PIN_CS`.
abbrev pub pin_mosi : ℕ
pin_mosi = 12

abbrev pub pin_miso : ℕ
pin_miso = 13

abbrev pub pin_sclk : ℕ
pin_sclk = 14

abbrev pub pin_cs : ℕ
pin_cs = 21

-- The fields of `buscfg` and `slvcfg` that are set to a pin or a number; the other lines are -1.
pub record SlaveConfig : Type 0 where
  pub mosi_io_num : ℕ
  pub miso_io_num : ℕ
  pub sclk_io_num : ℕ
  pub max_transfer_sz : ℕ
  pub spics_io_num : ℕ
  pub queue_size : ℕ
  pub mode : ℕ

pub record Peripherals (W : Type 0) : Type 0 where
  pub spi_slave_initialize : SlaveConfig → Act W (Unit {0})
  -- `xTaskCreatePinnedToCore`, which returns 1 for success.
  pub create_pinned_task : (stack_words priority core_id : ℕ) → W → ℕ × W

unfoldable pub slave_config : SlaveConfig
slave_config = record {
  mosi_io_num = pin_mosi;
  miso_io_num = pin_miso;
  sclk_io_num = pin_sclk;
  max_transfer_sz = rx_len;
  spics_io_num = pin_cs;
  queue_size = 1;
  mode = 0;
}

module _ {W : Type 0} (b : Board W) (p : Peripherals W) where
  abbrev rejoin_sys :
      {A : Type 0} → LinkSt W → Option (Result A × Sys W) → Option (Result A × LinkSt W)
  rejoin_sys s none = none
  rejoin_sys s (some (r, sys)) = some (r, record s { sys = sys })

  abbrev on_sys : {A : Type 0} → Act (Sys W) A → Act (LinkSt W) A
  on_sys m s = rejoin_sys s (m s.sys)

  -- `LedGuard::new`
  unfoldable pub led_new : Act (Sys W) (Unit {0})
  led_new = do
    effect (gpio_reset led_gpio)
    effect (gpio_output led_gpio)
    effect (gpio_level led_gpio 1)

  -- `SpiLink::init`
  unfoldable pub spi_init : Act (LinkSt W) (Unit {0})
  unfolding slave_config
  spi_init = do
    on_sys (effect (gpio_reset pin_ready))
    on_sys (effect (gpio_output pin_ready))
    on_sys (effect (gpio_level pin_ready 0))
    on_sys (call (p.spi_slave_initialize slave_config))
    modify (λ s. record s { link = record s.link { inited = true } })

  unfoldable pub start_spi_task : Act (LinkSt W) (Unit {0})
  start_spi_task = do
    created ← (λ s.
        let (n, w) = p.create_pinned_task 4096 10 1 s.sys.world in
        some (ok n, record s { sys = record s.sys { world = w } }))
    guard (created == 1) fail

  -- `main` up to its loop, from the objects that it has not made yet; an error ends the program.
  unfoldable pub boot : Act (LinkSt W) (Unit {0})
  unfolding led_new tps_new set_global_tps new_mass_storage set_global_mass_storage init_host
      new_link spi_init start_spi_task
  boot = do
    on_sys led_new
    on_sys (tps_new b)
    on_sys (set_global_tps b)
    on_sys (set_usb new_mass_storage)
    on_sys (set_global_mass_storage b)
    on_sys (init_host b)
    modify (λ s. record s { link = new_link })
    spi_init
    start_spi_task

module _ {W : Type 0} (b : Board W) where
  -- The first `n` rounds of the loop of `main`, which never returns.
  unfoldable pub main_rounds : ℕ → Act (Sys W) (Unit {0})
  unfolding poll
  main_rounds zero = pure tt
  main_rounds (suc n) = do
    poll b
    modify (λ s. record s { world = b.sleep_ms 5 s.world })
    main_rounds n
